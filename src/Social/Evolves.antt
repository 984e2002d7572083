-- ===== src/Social/Evolves.antt =====
-- How the rows of the outbox change: each along a path of the diagram, and new ones at its start.
use open_city_planner.Base.{
  Bool, List, update, ◌++◌, All, ◌∷◌, ◌≡◌, ◌∙◌, false, true, [], if◌then◌else◌, refl, Uuid,
}
use open_city_planner.Social.Enqueue.{is_adoption}
use open_city_planner.Social.Diagram.{Phase, at, Route-append, phase, here, Route}
use open_city_planner.Social.{Event, pending, pending_approval}

pub data IsStart : Phase → Type 0 where
  waiting : IsStart (at pending false)
  awaiting : IsStart (at pending_approval true)

-- Reached from a start.
abbrev pub IsBorn : Bool → Event → Type 0
IsBorn m e = (p : Phase) × IsStart p × Route m p (phase e)

-- A row that announces an adoption has always done so.
abbrev pub IsSubject : Event → Event → Type 0
IsSubject e e' = (polygon : Uuid) → is_adoption polygon e' ≡ true → is_adoption polygon e ≡ true

abbrev pub IsLater : Bool → Event → Event → Type 0
IsLater m e e' = (e'.id ≡ e.id) × Route m (phase e) (phase e') × IsSubject e e'

-- The rows stay, in their order, each moved along a path; the ones at the end are new.
abbrev pub Evolves : Bool → List Event → List Event → Type 0
Evolves m [] es' = All (IsBorn m) es'
Evolves m (e ∷ es) [] = ⊥
Evolves m (e ∷ es) (e' ∷ es') = IsLater m e e' × Evolves m es es'

module _ (m : Bool) where
  pub Evolves-refl : (es : List Event) → Evolves m es es
  Evolves-refl [] = tt
  Evolves-refl (e ∷ es) = ((refl, here, λ polygon k. k), Evolves-refl es)

  IsBorn-later : (e e' : Event) → IsBorn m e → IsLater m e e' → IsBorn m e'
  IsBorn-later e e' (p, start, path) later = (p, start, Route-append path later.1)

  IsBorn-trans : (es es' : List Event) → All (IsBorn m) es → Evolves m es es' → All (IsBorn m) es'
  IsBorn-trans [] es' b h = h
  IsBorn-trans (e ∷ es) [] b h = absurd h
  IsBorn-trans (e ∷ es) (e' ∷ es') b h = (IsBorn-later e e' b.0 h.0, IsBorn-trans es es' b.1 h.1)

  pub Evolves-trans :
      (es es' es'' : List Event) → Evolves m es es' → Evolves m es' es'' → Evolves m es es''
  Evolves-trans [] es' es'' h k = IsBorn-trans es' es'' h k
  Evolves-trans (e ∷ es) [] es'' h k = absurd h
  Evolves-trans (e ∷ es) (e' ∷ es') [] h k = absurd k
  Evolves-trans (e ∷ es) (e' ∷ es') (e'' ∷ es'') h k = (
    (k.0.0 ∙ h.0.0, Route-append h.0.1 k.0.1, λ polygon i. h.0.2 polygon (k.0.2 polygon i)),
    Evolves-trans es es' es'' h.1 k.1,
  )

  IsLater-if :
      (b : Bool) (f : Event → Event) (e : Event)
      → (b ≡ true → IsLater m e (f e))
      → IsLater m e (if b then f e else e)
  IsLater-if true f e h = h refl
  IsLater-if false f e h = (refl, here, λ polygon k. k)

  pub Evolves-update :
      (p : Event → Bool) (f : Event → Event) (es : List Event)
      → All (λ e. p e ≡ true → IsLater m e (f e)) es
      → Evolves m es (update p f es)
  unfolding update
  Evolves-update p f [] h = tt
  Evolves-update p f (e ∷ es) h = (IsLater-if (p e) f e h.0, Evolves-update p f es h.1)

  pub Evolves-append : (es : List Event) (e : Event) → IsBorn m e → Evolves m es (es ++ e ∷ [])
  Evolves-append [] e h = (h, tt)
  Evolves-append (x ∷ es) e h = ((refl, here, λ polygon k. k), Evolves-append es e h)
