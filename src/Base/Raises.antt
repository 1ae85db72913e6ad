-- ===== src/Base/Raises.antt =====
-- Which exceptions a call may raise: rules for its parts.
use mathlib.Core.Path.{◌≡◌}
use anime_recommendation_eng.Base.Action.{
  Action, Exc, Kind, Outcome, ok, raised, cancelled, proceed, resume,
}

-- If the call raised, its exception is one of P.
abbrev pub Raises : {W A : Type 0} → (Exc → Type 0) → Outcome A × W → Type 0
Raises P (ok _, w) = Unit
Raises P (raised e, w) = P e
Raises P (cancelled, w) = Unit

abbrev pub Never : Exc → Type 0
Never e = ⊥

abbrev pub OfKind : Kind → Exc → Type 0
OfKind k e = e.kind ≡ k

module _ {W A B : Type 0} (P : Exc → Type 0) where
  pub proceed-Raises :
      (g : A → Action W B) (p : Outcome A × W)
      → Raises P p
      → ((a : A) (w : W) → Raises P (g a w))
      → Raises P (proceed g p)
  proceed-Raises g (ok a, w) h k = k a w
  proceed-Raises g (raised e, w) h k = h
  proceed-Raises g (cancelled, w) h k = tt

module _ {W A : Type 0} (P : Exc → Type 0) where
  pub resume-Raises :
      (h : Exc → Action W A) (p : Outcome A × W)
      → ((e : Exc) (w : W) → Raises P (h e w))
      → Raises P (resume h p)
  resume-Raises h (ok a, w) k = tt
  resume-Raises h (raised e, w) k = k e w
  resume-Raises h (cancelled, w) k = tt

  pub Raises-of_Never : (p : Outcome A × W) → Raises Never p → Raises P p
  Raises-of_Never (ok a, w) h = tt
  Raises-of_Never (raised e, w) h = absurd h
  Raises-of_Never (cancelled, w) h = tt

-- If the call returned, its value is one of P.
abbrev pub Returns : {W A : Type 0} → (A → Type 0) → Outcome A × W → Type 0
Returns P (ok a, w) = P a
Returns P (raised _, w) = Unit
Returns P (cancelled, w) = Unit

module _ {W A B : Type 0} (P : B → Type 0) where
  pub proceed-Returns :
      (g : A → Action W B) (p : Outcome A × W)
      → ((a : A) (w : W) → Returns P (g a w))
      → Returns P (proceed g p)
  proceed-Returns g (ok a, w) k = k a w
  proceed-Returns g (raised e, w) k = tt
  proceed-Returns g (cancelled, w) k = tt

-- The call raised nothing, and if it was not cancelled, its value is one of P.
abbrev pub Yields : {W A : Type 0} → (A → Type 0) → Outcome A × W → Type 0
Yields P (ok a, w) = P a
Yields P (raised _, w) = ⊥
Yields P (cancelled, w) = Unit

module _ {W A B : Type 0} (P : A → Type 0) (Q : B → Type 0) where
  pub proceed-Yields :
      (g : A → Action W B) (p : Outcome A × W)
      → Yields P p
      → ((a : A) (w : W) → P a → Yields Q (g a w))
      → Yields Q (proceed g p)
  proceed-Yields g (ok a, w) h k = k a w h
  proceed-Yields g (raised e, w) h k = h
  proceed-Yields g (cancelled, w) h k = tt

module _ {W A : Type 0} (P : A → Type 0) where
  pub resume-Returns :
      (h : Exc → Action W A) (p : Outcome A × W)
      → Returns P p
      → ((e : Exc) (w : W) → Returns P (h e w))
      → Returns P (resume h p)
  resume-Returns h (ok a, w) k l = k
  resume-Returns h (raised e, w) k l = l e w
  resume-Returns h (cancelled, w) k l = tt

module _ {W A B : Type 0} (P : A → Type 0) (Q : B → Type 0) where
  pub proceed-Returns_from :
      (g : A → Action W B) (p : Outcome A × W)
      → Returns P p
      → ((a : A) (w : W) → P a → Returns Q (g a w))
      → Returns Q (proceed g p)
  proceed-Returns_from g (ok a, w) h k = k a w h
  proceed-Returns_from g (raised e, w) h k = tt
  proceed-Returns_from g (cancelled, w) h k = tt
