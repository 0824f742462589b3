-- ===== src/System/Machine.antt =====
-- A small system whose calls work, for the examples: it gives the descriptors in order and never the
-- same one again.
use cloud_backup_system.Common.{
  subst, ◌∙◌, ℕ, ◌+◌, ◌≡◌, refl, fun_ext, ap, true, Option, none, some, Bytes, ltb, if◌then◌else◌,
  arith, pos,
}
use cloud_backup_system.Sockets.{again}
use cloud_backup_system.System.{System, or_bit, o_nonblock, Access}
use cloud_backup_system.System.Descriptors.{Process, ProcessLaws, OpenFile, opened, put}
use cloud_backup_system.System.NetLaws.{
  Net, NetLaws, with_new, with_flags, with_watched, same_number, IsNew, IsMade, IsPiped,
}

-- `bound` is above the descriptors of files, `count` the number of sockets and ends of pipes, and
-- `mode` gives their flags.
pub record Machine : Type 0 where
  pub files : Process
  pub bound : ℕ
  pub count : ℕ
  pub mode : ℕ → ℕ
  pub sockets : Net

abbrev pub below : {V : Type 0} → ℕ → (ℕ → Option V) → ℕ → Option V
below n f j = if ltb j n then f j else none

abbrev pub process_of : Machine → Process
process_of m = record m.files { file_at = below m.bound m.files.file_at }

abbrev pub net_of : Machine → Net
net_of m = record m.sockets {
  number_at = below m.count (λ j. some j);
  flags = λ j. some (m.mode j);
}

abbrev pub new_socket : Machine → Machine
new_socket m = record m {
  count = m.count + 1;
  mode = put m.count 2 m.mode;
  sockets = with_new m.count m.count 2 m.sockets;
}

abbrev with_files : (Process → Process) → Machine → Machine
with_files f m = record m { files = f m.files }

abbrev with_sockets : (Net → Net) → Machine → Machine
with_sockets f m = record m { sockets = f (net_of m) }

abbrev pub mode_set : ℕ → ℕ → Machine → ℕ → ℕ
mode_set fd n m j =
    if same_number ((net_of m).number_at fd) ((net_of m).number_at j) then n else m.mode j

abbrev pub machine : System
machine = record {
  World = Machine;
  fork = λ m. (pos 0, m);
  set_session = λ m. (true, with_files (λ p. record p { leads_session = true }) m);
  ignore_signal = λ n m. with_files (λ p. record p { ignores = put n true p.ignores }) m;
  change_dir = λ d m. (true, with_files (λ p. record p { directory = some d }) m);
  open_file = λ f a m. (
    some m.bound,
    record m {
      bound = m.bound + 1;
      files = record m.files {
        file_at =
            put m.bound (some (record { number = m.bound; kind = opened f a })) m.files.file_at;
      };
    },
  );
  dup2 = λ a b m. record m {
    bound = if ltb b m.bound then m.bound else b + 1;
    files = record m.files {
      file_at = put b (below m.bound m.files.file_at a) (below m.bound m.files.file_at);
    };
  };
  close = λ fd m. with_files (λ p. record p { file_at = put fd none p.file_at }) m;
  get_flags = λ fd m. some (m.mode fd);
  set_flags = λ fd n m. (true, record m { mode = mode_set fd n m });
  pipe = λ m. (some (m.count, m.count + 1), new_socket (new_socket m));
  epoll_create = λ m. (some 3, m);
  epoll_ctl = λ ep op fd n m. (true, with_sockets (with_watched ep fd n) m);
  socket = λ m. (some m.count, new_socket m);
  reuse_address = λ fd m. (true, m);
  bind = λ fd p m. (true, with_sockets (λ n. record n { port = put fd (some p) n.port }) m);
  listen = λ fd size m. (true, with_sockets (λ n. record n { listens = put fd true n.listens }) m);
  accept = λ fd m. (again, m);
}

-- Descriptors are given in order.
counted : (m : Machine) → net_of (new_socket m) ≡ with_new m.count m.count 2 (net_of m)
counted m =
    let numbers : below (m.count + 1) (λ j. some j)
        ≡ put m.count (some m.count) (below m.count (λ j. some j)) =
      fun_ext λ j. ground arith in
    let flags : ◌≡◌ {A = ℕ → Option ℕ} (λ j. some (put m.count 2 m.mode j))
        (put m.count (some 2) (λ j. some (m.mode j))) =
      fun_ext λ j. ground arith in
    rw (numbers, flags) refl

counted-IsNew : (m : Machine) → IsNew (net_of m) m.count m.count
counted-IsNew m = record { free = ground arith; is_new = λ j. ground arith }

pub counted-IsMade : (m : Machine) → IsMade (net_of m) m.count (net_of (new_socket m))
counted-IsMade m = record { number = m.count; flag = 2; new = counted-IsNew m; made = counted m }

pub counted-IsPiped :
    (m : Machine) → IsPiped (net_of m) m.count (m.count + 1) (net_of (new_socket (new_socket m)))
counted-IsPiped m = record {
  read_number = m.count;
  read_flag = 2;
  write_number = m.count + 1;
  write_flag = 2;
  new_read = counted-IsNew m;
  new_write =
      subst (λ n. IsNew n (m.count + 1) (m.count + 1)) (counted m) (counted-IsNew (new_socket m));
  made = counted (new_socket m) ∙ ap (with_new (m.count + 1) (m.count + 1) 2) (counted m);
}

pub piped_lem :
    (r t : ℕ) (m v : Machine)
    → machine.pipe m ≡ (some (r, t), v)
    → IsPiped (net_of m) r t (net_of v)
piped_lem r t m v h =
    let first : m.count ≡ r = ground (arith, h) in
    let next : m.count + 1 ≡ t = ground (arith, h) in
    rw (← ap (λ r. r.1) h, ← first, ← next) (counted-IsPiped m)

pub socket_lem :
    (fd : ℕ) (m v : Machine) → machine.socket m ≡ (some fd, v) → IsMade (net_of m) fd (net_of v)
socket_lem fd m v h =
    let first : m.count ≡ fd = ground (arith, h) in
    rw (← ap (λ r. r.1) h, ← first) (counted-IsMade m)

pub mode_set_lem :
    (fd n : ℕ) (m : Machine)
    → net_of (record m { mode = mode_set fd n m }) ≡ with_flags fd n (net_of m)
mode_set_lem fd n m =
    let flags : ◌≡◌ {A = ℕ → Option ℕ} (λ j. some (mode_set fd n m j))
        (with_flags fd n (net_of m)).flags =
      fun_ext λ j. ground arith in
    rw flags refl

unfoldable pub machine-NetLaws : NetLaws machine
machine-NetLaws = record {
  net = net_of;
  flags_got = λ fd m. refl;
  flags_set = λ fd n m v e h. rw (← ap (λ r. r.1) h) (mode_set_lem fd (or_bit o_nonblock n) m);
  piped = piped_lem;
  socket_made = socket_lem;
  address_reused = λ fd m. refl;
  bound = λ fd p m v h. rw (← ap (λ r. r.1) h) refl;
  listened = λ fd n m v h. rw (← ap (λ r. r.1) h) refl;
  added = λ ep fd n m v h. rw (← ap (λ r. r.1) h) refl;
}

pub duplicated_at :
    (a b n : ℕ) (f : OpenFile) (files : ℕ → Option OpenFile)
    → below n files a ≡ some f
    → below (if ltb b n then n else b + 1) (put b (below n files a) (below n files))
      ≡ put b (some f) (below n files)
duplicated_at a b n f files h = rw h (fun_ext λ j. ground arith)

opened_at :
    (n : ℕ) (o : Option OpenFile) (files : ℕ → Option OpenFile)
    → below (n + 1) (put n o files) ≡ put n o (below n files)
opened_at n o files = fun_ext λ j. ground arith

pub closed_at :
    (fd n : ℕ) (files : ℕ → Option OpenFile)
    → below n (put fd none files) ≡ put fd none (below n files)
closed_at fd n files = fun_ext λ j. ground arith

pub file_opened_lem :
    (p : Bytes) (a : Access) (fd : ℕ) (m v : Machine)
    → machine.open_file p a m ≡ (some fd, v)
    → ((process_of m).file_at fd ≡ none)
      × ((n : ℕ) × (process_of v ≡ record (process_of m) {
        file_at = put fd (some (record { number = n; kind = opened p a })) (process_of m).file_at;
      }))
file_opened_lem p a fd m v h =
    let first : m.bound ≡ fd = ground (arith, h) in
    let file : OpenFile = record { number = m.bound; kind = opened p a } in
    rw (← ap (λ r. r.1) h, ← first)
      (ground arith, (m.bound, rw (opened_at m.bound (some file) m.files.file_at) refl))

unfoldable pub machine-ProcessLaws : ProcessLaws machine
machine-ProcessLaws = record {
  process = process_of;
  forked = λ m. refl;
  session_set = λ m v h. rw (← ap (λ r. r.1) h) refl;
  signal_ignored = λ n m. refl;
  dir_changed = λ p m v h. rw (← ap (λ r. r.1) h) refl;
  file_opened = file_opened_lem;
  duplicated = λ a b f m h. rw (duplicated_at a b m.bound f m.files.file_at h) refl;
  closed = λ fd m. rw (closed_at fd m.bound m.files.file_at) refl;
}
