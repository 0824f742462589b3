-- ===== src/Upload/Loop.antt =====
-- HTTPconnection.hpp, process_upload_body: the loop over the rounds.
use cloud_backup_system.Common.{
  ℕ, zero, suc, ◌<◌, ◌≡◌, refl, subst, Bool, true, some, List, arith, ℤ, inl, inr, Bool-cases,
}
use cloud_backup_system.Node.{Ptr}
use cloud_backup_system.Path.{is_empty}
use cloud_backup_system.FileUtil.{FileSystem}
use cloud_backup_system.DataManager.{Settings}
use cloud_backup_system.DataManager.Cache.{Cache}
use cloud_backup_system.Upload.{
  Parse, Round, next, leave, is_long, rounds, round, upload_loop, process_upload_body, read_head,
  read_content,
}
use cloud_backup_system.Upload.Inv.{Ok, left, after, goes_on}
use cloud_backup_system.Upload.Head.{read_head-Ok, read_head-left}
use cloud_backup_system.Upload.Content.{read_content-Ok, read_content-left}

module _ (fs : FileSystem) (c : Settings) (now : fs.World → ℤ) (xs : List Ptr)
    (cached : Cache) where
  open fs use {World}

  round-Ok : (p : Parse fs) → Ok fs xs cached p → Ok fs xs cached (after (round fs c now p))
  unfolding round
  round-Ok p v = elim (Bool-cases (is_empty p.info.cur_upload_file)) [
    | inl e ↦ rw (e, round) (read_head-Ok fs c now xs cached p e v)
    | inr e ↦ rw (e, round) (read_content-Ok fs c now xs cached p e v)
  ]

  pub round-left :
      (p : Parse fs)
      → is_long p.info ≡ true
      → goes_on (round fs c now p) ≡ true
      → left (after (round fs c now p)).info < left p.info
  unfolding round
  round-left p long = elim (Bool-cases (is_empty p.info.cur_upload_file)) [
    | inl e ↦
        subst Falls {x = read_head fs c now p} (rw (e, round))
          (read_head-left fs c now xs cached p e long)
    | inr e ↦
        subst Falls {x = read_content fs c now p} (rw (e, round))
          (λ go. read_content-left fs c now xs cached p e long)
  ]
    where
      Falls : Round fs → Type 0
      Falls r = goes_on r ≡ true → left (after r).info < left p.info

  -- The outcome of the loop with the given rounds.
  pub record Ended (fuel : ℕ) (p : Parse fs) : Type 0 where
    pub result : Bool
    pub state : Parse fs
    pub runs : upload_loop fs c now fuel p ≡ some (result, state)
    pub ok : Ok fs xs cached state

  one_round :
      (fuel : ℕ) (p : Parse fs) (r : Round fs)
      → is_long p.info ≡ true
      → round fs c now p ≡ r
      → Ok fs xs cached (after r)
      → (goes_on r ≡ true → Ended fuel (after r))
      → Ended (suc fuel) p
  unfolding upload_loop
  one_round fuel p (next p') long e v later =
      let n = later refl in
      record {
        result = n.result;
        state = n.state;
        runs = rw (upload_loop, long, e) n.runs;
        ok = n.ok;
      }
  one_round fuel p (leave b p') long e v later = record {
    result = b;
    state = p';
    runs = rw (upload_loop, long, e);
    ok = v;
  }

  loop-Ended : (fuel : ℕ) (p : Parse fs) → Ok fs xs cached p → left p.info < fuel → Ended fuel p
  unfolding upload_loop
  loop-Ended zero p v enough = absurd (omega arith)
  loop-Ended (suc fuel) p v enough = elim (Bool-cases (is_long p.info)) [
    | inr short ↦ record { result = true; state = p; runs = rw (upload_loop, short); ok = v }
    | inl long ↦
        let r = round fs c now p in
        one_round fuel p r long refl (round-Ok p v) (λ go.
          loop-Ended fuel (after r) (round-Ok p v) (omega (arith, round-left p long go, enough)))
  ]

  -- The outcome of a call.
  pub record Processed (p : Parse fs) : Type 0 where
    pub result : Bool
    pub state : Parse fs
    pub runs : process_upload_body fs c now p ≡ some (result, state)
    pub ok : Ok fs xs cached state

  -- If the manager is well formed, the file at hand is registered and not uploaded, and the files
  -- reported as done are uploaded, then a call ends, whatever the body, the boundary and the disk,
  -- and the same holds after it; the cache is not touched.
  pub process_upload_body-Processed : (p : Parse fs) → Ok fs xs cached p → Processed p
  unfolding process_upload_body
  process_upload_body-Processed p v =
      let e : Ended (rounds p.info) p = loop-Ended (rounds p.info) p v (ground arith) in
      record { result = e.result; state = e.state; runs = e.runs; ok = e.ok }
