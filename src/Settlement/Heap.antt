-- ===== src/Settlement/Heap.antt =====
-- The big.Int objects of the traffic service, each at a place of its own: fields of the service hold
-- places, so that two fields may share an object, and an in-place operation is seen through both.
use favor_x.Base.{ℕ, ◌+◌, ◌==◌, if◌then◌else◌}
use favor_x.Base.Int.{ℤ}

abbrev pub Ref : Type 0
Ref = ℕ

pub record Heap : Type 0 where
  pub next : Ref
  pub cell : Ref → ℤ

abbrev pub update : (Ref → ℤ) → Ref → ℤ → Ref → ℤ
update f p v q = if p == q then v else f q

-- x.Set, and the receiver of an in-place x.Add
abbrev pub put : Heap → Ref → ℤ → Heap
put h p v = record h { cell = update h.cell p v }

-- A new object.
abbrev pub alloc : Heap → ℤ → Heap
alloc h v = record { next = h.next + 1; cell = update h.cell h.next v }
