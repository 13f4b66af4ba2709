-- ===== src/Topology/PSlice/Duplicates.antt =====
-- Add of a list that names an address twice: its first loop looks for copies before its last loop
-- appends any, so the second occurrence is not seen.
use favor_x.Base.{◌≤◌, ◌≡◌, sym, ◌∙◌, ap, false, [], ◌∷◌, arith, ◌==◌, if◌then◌else◌}
use favor_x.Base.Bytes.{bytes_eq_refl}
use favor_x.Boson.{Address}
use favor_x.Topology.PSlice.{PSlice, po, exists, append_peer, append_all, mark, add}
use favor_x.Topology.PSlice.Invariant.{
  IsValid, copies, exists-copies, append_peer-IsValid, copies-append_peer, po-append_peer,
}

add_two :
    (s : PSlice) (x : Address)
    → exists s x ≡ false
    → add s (x ∷ x ∷ []) ≡ append_peer (append_peer s (po s x) x) (po s x) x
unfolding add append_all mark exists
add_two s x h = rw h

-- If an address is not in a valid slice, Add of a list that names it twice leaves two copies of it,
-- and the slice is no longer valid.
pub add_twice :
    (s : PSlice) (x : Address)
    → IsValid s
    → exists s x ≡ false
    → (copies (add s (x ∷ x ∷ [])) x ≡ 2) × (¬ IsValid (add s (x ∷ x ∷ [])))
add_twice s x v h = (two, λ w. omega (arith, two, w.placed (po t x) x, one))
  where
    t : PSlice
    t = add s (x ∷ x ∷ [])

    once : PSlice
    once = append_peer s (po s x) x

    none_yet : copies s x ≡ 0
    none_yet = ground (arith, exists-copies s x)

    two : copies t x ≡ 2
    two =
        ap (λ u. copies u x) (add_two s x h)
        ∙ ap (λ k. copies (append_peer once k x) x) (sym (po-append_peer s (po s x) x x))
        ∙ copies-append_peer once x x (append_peer-IsValid s x v none_yet)
        ∙ ground (arith, copies-append_peer s x x v, none_yet, bytes_eq_refl x)

    one : (if po t x == po t x then 1 else 0) ≤ 1
    one = ground arith
