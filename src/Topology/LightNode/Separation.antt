-- ===== src/Topology/LightNode/Separation.antt =====
-- No light node is connected and disconnected at once.
use favor_x.Base.{◌≡◌, ◌∙◌, true, false, ◌||◌, List, [], ◌∷◌, arith, Bool-cases, inl, inr}
use favor_x.Base.Bytes.{bytes_eq}
use favor_x.Boson.{Address, member_of}
use favor_x.Topology.PSlice
use favor_x.Topology.PSlice.{PSlice, add, remove, exists}
use favor_x.Topology.PSlice.Count.{count}
use favor_x.Topology.PSlice.Invariant.{IsValid, Distinct, new-IsValid, add-IsValid, exists-add}
use favor_x.Topology.PSlice.Removal.{remove-IsValid, exists-remove}
use favor_x.Topology.LightNode.{
  Container, new_container, connected, disconnected, Event, connects, disconnects, step, run,
}

pub record IsSeparated (c : Container) : Type 0 where
  pub connected_valid : IsValid c.connected_peers
  pub disconnected_valid : IsValid c.disconnected_peers
  pub apart :
      (a : Address) → exists c.connected_peers a ≡ true → exists c.disconnected_peers a ≡ false

single : (x : Address) → Distinct (x ∷ [])
unfolding count
single x a = ground arith

exists-add_single :
    (s : PSlice) (x a : Address)
    → IsValid s
    → exists (add s (x ∷ [])) a ≡ (exists s a || bytes_eq x a)
exists-add_single s x a v =
    exists-add s (x ∷ []) a v (single x) ∙ (unfold member_of in ground arith)

connected-IsSeparated : (c : Container) (x : Address) → IsSeparated c → IsSeparated (connected c x)
unfolding connected
connected-IsSeparated c x v = record {
  connected_valid = add-IsValid c.connected_peers (x ∷ []) v.connected_valid (single x);
  disconnected_valid = remove-IsValid c.disconnected_peers x v.disconnected_valid;
  apart = λ a h. ground (
    arith,
    exists-add_single c.connected_peers x a v.connected_valid,
    exists-remove c.disconnected_peers x a v.disconnected_valid,
    v.apart a,
  );
}

disconnected-IsSeparated :
    (c : Container) (x : Address) → IsSeparated c → IsSeparated (disconnected c x)
unfolding disconnected
disconnected-IsSeparated c x v = elim (Bool-cases (exists c.connected_peers x)) [
  | inr h ↦ rw (disconnected, h) v
  | inl h ↦
      rw (disconnected, h)
        (record {
          connected_valid = remove-IsValid c.connected_peers x v.connected_valid;
          disconnected_valid =
              add-IsValid c.disconnected_peers (x ∷ []) v.disconnected_valid (single x);
          apart = λ a k. ground (
            arith,
            exists-add_single c.disconnected_peers x a v.disconnected_valid,
            exists-remove c.connected_peers x a v.connected_valid,
            v.apart a,
          );
        })
]

step-IsSeparated : (c : Container) (e : Event) → IsSeparated c → IsSeparated (step c e)
unfolding step
step-IsSeparated c (connects x) v = connected-IsSeparated c x v
step-IsSeparated c (disconnects x) v = disconnected-IsSeparated c x v

-- If the two lists are valid and no node is in both, this stays so however light nodes connect and
-- disconnect.
pub run-IsSeparated : (c : Container) (es : List Event) → IsSeparated c → IsSeparated (run c es)
unfolding run
run-IsSeparated c [] v = v
run-IsSeparated c (e ∷ es) v = run-IsSeparated (step c e) es (step-IsSeparated c e v)

exists-new : (base a : Address) → exists (PSlice.new 1 base) a ≡ false
unfolding exists PSlice.new PSlice.index PSlice.po
exists-new base a = ground arith

-- A container that starts empty.
pub new_container-IsSeparated : (base : Address) → IsSeparated (new_container base)
unfolding new_container
new_container-IsSeparated base = record {
  connected_valid = new-IsValid 1 base (omega arith) (omega arith);
  disconnected_valid = new-IsValid 1 base (omega arith) (omega arith);
  apart = λ a h. exists-new base a;
}
