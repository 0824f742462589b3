-- ===== src/Lru/Writes.antt =====
-- What the pointer writes of the list do to the store when they run without a fault.
use cloud_backup_system.Common.{◌≡◌, ◌≢◌, some, [], arith, Bytes, ◌==◌, if◌then◌else◌}
use cloud_backup_system.Node.{Ptr, null, Heap, update, set_content}
use cloud_backup_system.Lru.{detach, insert_head, clear_node}
use cloud_backup_system.Lru.Chain.{Detached, Inserted}

-- The two stores hold the same files and the same cached bytes.
pub record SameData (h k : Heap) : Type 0 where
  pub infos : (x : Ptr) → (k x).info ≡ (h x).info
  pub contents : (x : Ptr) → (k x).file_pre_content ≡ (h x).file_pre_content

pub detach-Detached :
    (n : Ptr) (h : Heap)
    → n ≢ null
    → (h n).prev ≢ null
    → (h n).next ≢ null
    → (h n).prev ≢ n
    → (k : Heap) × (detach n h ≡ some k) × Detached h k n × SameData h k
unfolding detach update
detach-Detached n h n0 p0 q0 pn =
    let p = (h n).prev in
    let q = (h n).next in
    let h' : Heap = update h p (record (h p) { next = q }) in
    (
      update h' q (record (h' q) { prev = p }),
      ground arith,
      record { nexts = λ x. ground arith; prevs = λ x. ground arith },
      record { infos = λ x. ground arith; contents = λ x. ground arith },
    )

pub insert_head-Inserted :
    (a n : Ptr) (h : Heap)
    → a ≢ null
    → n ≢ null
    → n ≢ a
    → (h a).next ≢ null
    → (h a).next ≢ n
    → (k : Heap) × (insert_head a n h ≡ some k) × Inserted h k n a × SameData h k
unfolding insert_head update
insert_head-Inserted a n h a0 n0 na q0 qn =
    let q = (h a).next in
    let h1 : Heap = update h n (record (h n) { next = q }) in
    let h2 : Heap = update h1 n (record (h1 n) { prev = a }) in
    let h3 : Heap = update h2 q (record (h2 q) { prev = n }) in
    (
      update h3 a (record (h3 a) { next = n }),
      ground arith,
      record { nexts = λ x. ground arith; prevs = λ x. ground arith },
      record { infos = λ x. ground arith; contents = λ x. ground arith },
    )

-- The effect of dropping the cached bytes and the links of `n`.
pub record Cleared (h k : Heap) (n : Ptr) : Type 0 where
  pub nexts : (x : Ptr) → (k x).next ≡ (if x == n then null else (h x).next)
  pub prevs : (x : Ptr) → (k x).prev ≡ (if x == n then null else (h x).prev)
  pub contents :
      (x : Ptr) → (k x).file_pre_content ≡ (if x == n then [] else (h x).file_pre_content)
  pub infos : (x : Ptr) → (k x).info ≡ (h x).info

pub clear_node-Cleared :
    (n : Ptr) (h : Heap) → n ≢ null → (k : Heap) × (clear_node n h ≡ some k) × Cleared h k n
unfolding clear_node update
clear_node-Cleared n h n0 =
    let h1 : Heap = update h n (record (h n) { file_pre_content = [] }) in
    let h2 : Heap = update h1 n (record (h1 n) { prev = null }) in
    (
      update h2 n (record (h2 n) { next = null }),
      ground arith,
      record {
        nexts = λ x. ground arith;
        prevs = λ x. ground arith;
        contents = λ x. ground arith;
        infos = λ x. ground arith;
      },
    )

-- The effect of storing the cached bytes of `n`.
pub record Stored (h k : Heap) (n : Ptr) (c : Bytes) : Type 0 where
  pub nexts : (x : Ptr) → (k x).next ≡ (h x).next
  pub prevs : (x : Ptr) → (k x).prev ≡ (h x).prev
  pub contents : (x : Ptr) → (k x).file_pre_content ≡ (if x == n then c else (h x).file_pre_content)
  pub infos : (x : Ptr) → (k x).info ≡ (h x).info

pub set_content-Stored :
    (n : Ptr) (c : Bytes) (h : Heap)
    → n ≢ null
    → (k : Heap) × (set_content n c h ≡ some k) × Stored h k n c
unfolding set_content update
set_content-Stored n c h n0 = (
  update h n (record (h n) { file_pre_content = c }),
  ground arith,
  record {
    nexts = λ x. ground arith;
    prevs = λ x. ground arith;
    contents = λ x. ground arith;
    infos = λ x. ground arith;
  },
)
