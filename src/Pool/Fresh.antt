-- ===== src/Pool/Fresh.antt =====
-- src/obpool.c: no object is given out twice. `live` are the objects given out and not freed.
use gibson_mastter.Base.{
  ◌<◌, ◌≡◌, ◌≢◌, refl, ap, sym, subst, ◌⊎◌, inl, inr, List, [], ◌∷◌, leb, All, arith, if_rule,
}
use gibson_mastter.Pool.{Pool, Address, opool_alloc_object, opool_free_object, grow, take_slot}

-- An object that the pool has made: in an earlier block, or in the used part of the current one.
abbrev pub Made : Pool → Address → Type 0
Made p a = (a.0 < p.block) ⊎ ((a.0 ≡ p.block) × (a.1 < p.used))

abbrev pub Apart : Address → List Address → Type 0
Apart a = All (λ b. a ≢ b)

abbrev pub AllApart : List Address → Type 0
AllApart [] = Unit
AllApart (a ∷ bs) = Apart a bs × AllApart bs

-- The live objects and the free ones have been made, and no two of them are the same.
pub record Owns (p : Pool) (live : List Address) : Type 0 where
  pub live_made : All (Made p) live
  pub free_made : All (Made p) p.first_free
  pub live_apart : AllApart live
  pub free_apart : AllApart p.first_free
  pub apart : All (λ a. Apart a live) p.first_free

Made-ne : (p : Pool) (a : Address) → Made p a → (p.block, p.used) ≢ a
Made-ne p a m e = elim m [
  | inl lt ↦ absurd (omega (arith, lt, ap (λ b. b.0) e))
  | inr at ↦ absurd (omega (arith, at.1, ap (λ b. b.1) e))
]

fresh-Apart : (p : Pool) (bs : List Address) → All (Made p) bs → Apart (p.block, p.used) bs
fresh-Apart p [] h = tt
fresh-Apart p (a ∷ bs) h = (Made-ne p a h.0, fresh-Apart p bs h.1)

module _ (p q : Pool) (keeps : (a : Address) → Made p a → Made q a) where
  more-Made : (bs : List Address) → All (Made p) bs → All (Made q) bs
  more-Made [] h = tt
  more-Made (a ∷ bs) h = (keeps a h.0, more-Made bs h.1)

Apart-cons :
    (a : Address) (fs live : List Address)
    → Apart a fs
    → All (λ b. Apart b live) fs
    → All (λ b. Apart b (a ∷ live)) fs
Apart-cons a [] live h g = tt
Apart-cons a (f ∷ fs) live h g = ((λ e. h.0 (cc e), g.0), Apart-cons a fs live h.1 g.1)

-- The object is new: the place behind the used ones.
pub take_slot-Owns :
    (p : Pool) (live : List Address)
    → Owns p live
    → let (p', a) = take_slot p in Apart a live × Owns p' (a ∷ live)
take_slot-Owns p live h =
    let (p', a) = take_slot p in
    let keeps : (b : Address) → Made p b → Made p' b =
      λ b m. elim m [ inl lt ↦ inl lt | inr at ↦ inr (at.0, omega (arith, at.1)) ] in
    (
      fresh-Apart p live h.live_made,
      record {
        live_made = (inr (refl, omega arith), more-Made p p' keeps live h.live_made);
        free_made = more-Made p p' keeps p.first_free h.free_made;
        live_apart = (fresh-Apart p live h.live_made, h.live_apart);
        free_apart = h.free_apart;
        apart = Apart-cons a p.first_free live (fresh-Apart p p.first_free h.free_made) h.apart;
      },
    )

pub grow-Owns : (p : Pool) (live : List Address) → Owns p live → Owns (grow p) live
grow-Owns p live h =
    let keeps : (b : Address) → Made p b → Made (grow p) b =
      λ b m. elim m [ inl lt ↦ inl (omega (arith, lt)) | inr at ↦ inl (omega (arith, at.0)) ] in
    record {
      live_made = more-Made p (grow p) keeps live h.live_made;
      free_made = more-Made p (grow p) keeps p.first_free h.free_made;
      live_apart = h.live_apart;
      free_apart = h.free_apart;
      apart = h.apart;
    }

pub reuse-Owns :
    (p : Pool) (a : Address) (rest live : List Address)
    → p.first_free ≡ a ∷ rest
    → Owns p live
    → Apart a live × Owns (record p { first_free = rest }) (a ∷ live)
reuse-Owns p a rest live first h =
    let made : All (Made p) (a ∷ rest) = subst (All (Made p)) first h.free_made in
    let apart : All (λ b. Apart b live) (a ∷ rest) =
      subst (All (λ b. Apart b live)) first h.apart in
    let free : AllApart (a ∷ rest) = subst AllApart first h.free_apart in
    (
      apart.0,
      record {
        live_made = (made.0, h.live_made);
        free_made = made.1;
        live_apart = (apart.0, h.live_apart);
        free_apart = free.1;
        apart = Apart-cons a rest live free.0 apart.1;
      },
    )

pub list_rule :
    {A C : Type 0} (P : C → Type 0) (xs : List A) (y : C) (f : A → List A → C)
    → ((a : A) (rest : List A) → xs ≡ a ∷ rest → P (f a rest))
    → P y
    → P (elim xs [ a ∷ rest ↦ f a rest | [] ↦ y ])
list_rule P [] y f pf py = py
list_rule P (a ∷ rest) y f pf py = pf a rest refl

abbrev Allocated : List Address → Pool × Address → Type 0
Allocated live (p, a) = Apart a live × Owns p (a ∷ live)

-- From a pool whose live and free objects are all made and all different, an allocation gives an
-- object that is not live, whether it comes from the free list, the current block or a new one. With
-- that object among the live ones, the live and the free objects are again all made and different.
pub alloc-Owns :
    (p : Pool) (live : List Address)
    → Owns p live
    → let (p', a) = opool_alloc_object p in Apart a live × Owns p' (a ∷ live)
unfolding opool_alloc_object
alloc-Owns p live h =
    list_rule (Allocated live) p.first_free _ _ (λ a rest first. reuse-Owns p a rest live first h)
      (if_rule (Allocated live) (leb p.capacity p.used) _ _
        (λ _. take_slot-Owns (grow p) live (grow-Owns p live h)) (λ _. take_slot-Owns p live h))

Apart-of : (a : Address) (live fs : List Address) → All (λ b. Apart b (a ∷ live)) fs → Apart a fs
Apart-of a live [] h = tt
Apart-of a live (f ∷ fs) h = ((λ e. h.0.0 (sym e)), Apart-of a live fs h.1)

Apart-rest :
    (a : Address) (live fs : List Address)
    → All (λ b. Apart b (a ∷ live)) fs
    → All (λ b. Apart b live) fs
Apart-rest a live [] h = tt
Apart-rest a live (f ∷ fs) h = (h.0.1, Apart-rest a live fs h.1)

-- Freeing a live object leaves a pool whose live objects (without that one) and free objects (with
-- it) are all made and all different, if they were before.
pub free-Owns :
    (p : Pool) (a : Address) (live : List Address)
    → Owns p (a ∷ live)
    → Owns (opool_free_object p a) live
unfolding opool_free_object
free-Owns p a live h = record {
  live_made = h.live_made.1;
  free_made = (h.live_made.0, h.free_made);
  live_apart = h.live_apart.1;
  free_apart = (Apart-of a live p.first_free h.apart, h.free_apart);
  apart = (h.live_apart.0, Apart-rest a live p.first_free h.apart);
}
