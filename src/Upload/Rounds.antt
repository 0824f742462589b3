-- ===== src/Upload/Rounds.antt =====
-- HTTPconnection.hpp, process_upload_body: a call while the bytes of one file come in.
use cloud_backup_system.Common.{
  ℕ, zero, suc, ◌+◌, ◌≤◌, ◌<◌, ◌≡◌, refl, sym, ap, Bool, true, false, ◌⊎◌, none, some, [], ◌∷◌,
  ◌++◌, arith, Bytes, bytes, ℤ, length, drop, drop-append, inl, inr, Bool-cases, Option-cases, ◌∙◌,
  ltb,
}
use cloud_backup_system.Path.{is_empty}
use cloud_backup_system.FileUtil.{FileSystem}
use cloud_backup_system.DataManager.{Settings, target_file}
use cloud_backup_system.Upload.{
  HttpMessageInfo, Parse, next, leave, find, is_prefix, sep, is_long, read_head, round, upload_loop,
}
use cloud_backup_system.Upload.Find.{find_within}
use cloud_backup_system.Upload.Search.{drop-append_within, find-append, find_across, is_prefix_self}
use cloud_backup_system.Upload.Inv.{left}
use cloud_backup_system.Upload.Loop.{round-left}
use cloud_backup_system.Upload.Flow.{Appends, Filling, Filled, lead, fill_more, fill_last}

-- A boundary begins with two dashes.
abbrev pub is_dashed : Bytes → Bool
is_dashed b = is_prefix (bytes "--") b

lead_small : (broken : Bool) → length (lead broken) ≤ 2
lead_small true = omega arith
lead_small false = omega arith

find_self : (b tail : Bytes) → find b (b ++ tail) ≡ some 0
unfolding find
find_self [] [] = refl
find_self [] (x ∷ tail) = refl
find_self (c ∷ b) tail = ground (arith, is_prefix_self (c ∷ b) tail)

find_boundary : (b tail : Bytes) → is_dashed b ≡ true → find b (sep ++ (b ++ tail)) ≡ some 2
unfolding find
find_boundary [] tail h = cc
find_boundary (c ∷ b) tail h = ground (arith, find_self (c ∷ b) tail)

module _ (fs : FileSystem) (c : Settings) (now : fs.World → ℤ) (m : HttpMessageInfo)
    (text : fs.World → Bytes) (total tail : Bytes) (dashed : is_dashed m.body_boundary ≡ true)
    (last_part : find (sep ++ sep) (m.body_boundary ++ tail) ≡ none) where
  open fs use {World}

  find-lead :
      (broken : Bool)
      → find m.body_boundary (lead broken ++ (m.body_boundary ++ tail))
        ≡ some (length (lead broken))
  find-lead true = find_boundary m.body_boundary tail dashed
  find-lead false = find_self m.body_boundary tail

  find_crossing :
      (body future : Bytes) (k : ℕ)
      → find m.body_boundary (body ++ future) ≡ some k
      → k ≤ 2
      → ltb (length m.body_boundary + 2) (length body) ≡ true
      → find m.body_boundary body ≡ some k
  find_crossing body future k e small long = elim (Option-cases (find m.body_boundary body)) [
    | inl n ↦ absurd (ground (arith, find_across m.body_boundary body future k n e))
    | inr (j, f) ↦ cc (find-append m.body_boundary body future j f)
  ]

  -- A round behind the end of the file.
  round-Filled :
      (p : Parse fs) (future : Bytes)
      → Filled fs c now m text total tail p future
      → is_long p.info ≡ true
      → (q : Parse fs) × (round fs c now p ≡ leave true q)
        × Filled fs c now m text total tail q future
  unfolding round read_head
  round-Filled p future v long =
      let body = p.info.request_body in
      let k = length (lead v.broken) in
      let small : k ≤ 2 = lead_small v.broken in
      let whole : find m.body_boundary (body ++ future) ≡ some k = rw v.body (find-lead v.broken) in
      let here : find m.body_boundary body ≡ some k =
        find_crossing body future k whole small (rw (← v.same.boundary) long) in
      let inside : k ≤ length body = omega (arith, find_within m.body_boundary body k here) in
      let cut : drop k body ++ future ≡ m.body_boundary ++ tail =
        sym (drop-append_within k body future inside)
        ∙ (ap (drop k) v.body ∙ drop-append (lead v.broken) (m.body_boundary ++ tail)) in
      let no_head : find (sep ++ sep) (drop k body) ≡ none =
        elim (Option-cases (find (sep ++ sep) (drop k body))) [
          | inl e ↦ e
          | inr (j, e) ↦
              absurd
                (ground (arith, find-append (sep ++ sep) (drop k body) future j e, cut, last_part))
        ] in
      let idle : is_empty p.info.cur_upload_file ≡ true = rw v.closed in
      let there : find p.info.body_boundary body ≡ some k = rw v.same.boundary here in
      (
        record p { info = record p.info { request_body = drop k body } },
        rw (round, idle, read_head, there, no_head),
        record {
          same = record {
            boundary = v.same.boundary;
            method = v.same.method;
            prefix = v.same.prefix;
            status = v.same.status;
            fails = v.same.fails;
          };
          closed = v.closed;
          done = v.done;
          broken = false;
          body = cut;
          written = v.written;
        },
      )

  -- A call behind the end of the file changes nothing but what is kept of the body.
  pub record Passed (fuel : ℕ) (p : Parse fs) (future : Bytes) : Type 0 where
    pub state : Parse fs
    pub runs : upload_loop fs c now fuel p ≡ some (true, state)
    pub filled : Filled fs c now m text total tail state future

  pub upload_loop-Filled :
      (fuel : ℕ) (p : Parse fs) (future : Bytes)
      → Filled fs c now m text total tail p future
      → 0 < fuel
      → Passed fuel p future
  unfolding upload_loop
  upload_loop-Filled zero p future v some_fuel = absurd (omega arith)
  upload_loop-Filled (suc fuel) p future v some_fuel = elim (Bool-cases (is_long p.info)) [
    | inr short ↦ record { state = p; runs = rw (upload_loop, short); filled = v }
    | inl long ↦
        let (q, e, f) = round-Filled p future v long in
        record { state = q; runs = rw (upload_loop, long, e); filled = f }
  ]

  round_falls :
      (p q : Parse fs)
      → is_long p.info ≡ true
      → round fs c now p ≡ next q
      → left q.info < left p.info
  round_falls p q long e = rw e at (round-left fs c now [] [] p long (rw e))

  -- After a call either the end of the file has been read, or less is kept than would hold it.
  pub record Called (fuel : ℕ) (p : Parse fs) (future : Bytes) : Type 0 where
    pub state : Parse fs
    pub runs : upload_loop fs c now fuel p ≡ some (true, state)
    pub phase :
        Filled fs c now m text total tail state future
        ⊎ ((rest : Bytes) × Filling fs c now m text total tail state future rest
            × (is_long state.info ≡ false))

  module _ (open_file : is_empty m.cur_upload_file ≡ false)
      (appends : Appends fs (target_file c m.cur_upload_file) text) where
    pub upload_loop-Filling :
        (fuel : ℕ) (p : Parse fs) (future rest : Bytes)
        → Filling fs c now m text total tail p future rest
        → left p.info < fuel
        → Called fuel p future
    unfolding upload_loop round
    upload_loop-Filling zero p future rest v enough = absurd (omega arith)
    upload_loop-Filling (suc fuel) p future rest v enough = elim (Bool-cases (is_long p.info)) [
      | inr short ↦ record {
        state = p;
        runs = rw (upload_loop, short);
        phase = inr (rest, v, short);
      }
      | inl long ↦
          let busy : is_empty p.info.cur_upload_file ≡ false = rw v.at_hand open_file in
          elim (Option-cases (find (sep ++ p.info.body_boundary) p.info.request_body)) [
            | inl e ↦
                let (q, less, run, w) =
                  fill_more fs c now m text total tail open_file appends p future rest v long e in
                let run' : round fs c now p ≡ next q = rw (round, busy) run in
                let r : Called fuel q future =
                  upload_loop-Filling fuel q future less w
                    (omega (arith, round_falls p q long run', enough)) in
                record {
                  state = r.state;
                  runs = rw (upload_loop, long, run') r.runs;
                  phase = r.phase;
                }
            | inr (i, e) ↦
                let (q, run, w) =
                  fill_last fs c now m text total tail open_file appends p future rest i v e in
                let run' : round fs c now p ≡ next q = rw (round, busy) run in
                let r : Passed fuel q future =
                  upload_loop-Filled fuel q future w
                    (omega (arith, round_falls p q long run', enough)) in
                record {
                  state = r.state;
                  runs = rw (upload_loop, long, run') r.runs;
                  phase = inl r.filled;
                }
          ]
    ]
