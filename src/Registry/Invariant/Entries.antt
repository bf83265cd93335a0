-- ===== src/Registry/Invariant/Entries.antt =====
-- Distinct session names and the changes of the active map.
use herdr_dog_relay.Prelude.{
  ℕ, ◌≡◌, refl, [], ◌∷◌, false, Bytes, any, ◌==◌, nat_ord, bytes_ord, bytes_beq, bytes_beq_iff,
  arith,
}
use herdr_dog_relay.Map.{Map, insert, remove, modify, values}
use herdr_dog_relay.Map.Laws.{insert-All, remove-All}
use herdr_dog_relay.Registry.{ActiveSession}
use herdr_dog_relay.Registry.Invariant.{NameFree, IsDistinct}

beq_sym : (a b : Bytes) → bytes_beq a b ≡ false → bytes_beq b a ≡ false
beq_sym a b h = ground (arith, bytes_beq_iff a b, bytes_beq_iff b a)

pub insert-IsDistinct :
    (h : ℕ) (a : ActiveSession) (m : Map ℕ ActiveSession)
    → NameFree a.prepared.session.as_str m
    → IsDistinct m
    → IsDistinct (insert h a m)
unfolding insert
insert-IsDistinct h a [] f d = (tt, tt)
insert-IsDistinct h a ((j, b) ∷ m) f d =
    let s = b.prepared.session.as_str in
    ground (
      arith,
      insert-IsDistinct h a m f.1 d.1,
      insert-All (λ (e : ℕ × ActiveSession). (e.1.prepared.session.as_str == s) ≡ false) h a m
          (beq_sym _ _ f.0) d.0,
    )

pub remove-IsDistinct : (h : ℕ) (m : Map ℕ ActiveSession) → IsDistinct m → IsDistinct (remove h m)
unfolding remove
remove-IsDistinct h [] d = tt
remove-IsDistinct h ((j, b) ∷ m) d =
    let s = b.prepared.session.as_str in
    ground (
      arith,
      remove-IsDistinct h m d.1,
      remove-All (λ (e : ℕ × ActiveSession). (e.1.prepared.session.as_str == s) ≡ false) h m d.0,
    )

-- A change of an entry that keeps its session name.
modify-NameFree :
    (s : Bytes) (h : ℕ) (f : ActiveSession → ActiveSession) (m : Map ℕ ActiveSession)
    → ((a : ActiveSession) → (f a).prepared ≡ a.prepared)
    → NameFree s m
    → NameFree s (modify h f m)
unfolding modify
modify-NameFree s h f [] keep n = tt
modify-NameFree s h f ((j, b) ∷ m) keep n = ground (arith, keep b, modify-NameFree s h f m keep n.1)

pub modify-IsDistinct :
    (h : ℕ) (f : ActiveSession → ActiveSession) (m : Map ℕ ActiveSession)
    → ((a : ActiveSession) → (f a).prepared ≡ a.prepared)
    → IsDistinct m
    → IsDistinct (modify h f m)
unfolding modify
modify-IsDistinct h f [] keep d = tt
modify-IsDistinct h f ((j, b) ∷ m) keep d = ground (
  arith,
  keep b,
  modify-NameFree b.prepared.session.as_str h f m keep d.0,
  modify-IsDistinct h f m keep d.1,
)

-- The test that `open_at` makes of the active sessions.
pub NameFree-any :
    (s : Bytes) (m : Map ℕ ActiveSession)
    → any (λ (a : ActiveSession). a.prepared.session.as_str == s) (values m) ≡ false
    → NameFree s m
NameFree-any s [] h = tt
NameFree-any s ((j, b) ∷ m) h = ground (arith, NameFree-any s m)

pub any-NameFree :
    (s : Bytes) (m : Map ℕ ActiveSession)
    → NameFree s m
    → any (λ (a : ActiveSession). a.prepared.session.as_str == s) (values m) ≡ false
any-NameFree s [] h = refl
any-NameFree s ((j, b) ∷ m) h = ground (arith, any-NameFree s m h.1)
