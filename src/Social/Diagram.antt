-- ===== src/Social/Diagram.antt =====
-- The life of a post as an abstract machine: its status and whether its approval is outstanding.
use open_city_planner.Base.{Bool, false, ◌≡◌, arith, true, ◌≢◌, refl}
use open_city_planner.Social.{
  Event, Status, published, pending_approval, pending, processing, dry_run, failed, cancelled,
}

pub data Phase : Type 0 where
  at : Status → Bool → Phase

abbrev pub phase : Event → Phase
phase e = at e.status e.approval_required

pub data IsOpen : Status → Type 0 where
  awaits : IsOpen pending_approval
  waits : IsOpen pending
  works : IsOpen processing
  stuck : IsOpen failed

-- The edges; `may_approve` says whether an administrator's approval is among them.
pub data Edge (may_approve : Bool) : Phase → Phase → Type 0 where
  claim : {b : Bool} → Edge may_approve (at pending b) (at processing b)
  claim_draft : {b : Bool} → Edge may_approve (at pending_approval b) (at processing b)
  put_back : Edge may_approve (at processing false) (at pending false)
  put_back_draft : Edge may_approve (at processing true) (at pending_approval true)
  announce : Edge may_approve (at processing false) (at published false)
  rehearse : Edge may_approve (at processing false) (at dry_run false)
  lose : {b : Bool} → Edge may_approve (at processing b) (at failed b)
  reset : {b : Bool} → Edge may_approve (at failed b) (at pending b)
  discard : {s : Status} {b : Bool} → IsOpen s → Edge may_approve (at s b) (at cancelled b)
  allow :
      {b : Bool} → may_approve ≡ true → Edge may_approve (at pending_approval b) (at pending false)

pub data Route (may_approve : Bool) : Phase → Phase → Type 0 where
  here : {p : Phase} → Route may_approve p p
  then : {p q r : Phase} → Edge may_approve p q → Route may_approve q r → Route may_approve p r

pub ruleset edges =
    (claim, claim_draft, put_back, put_back_draft, announce, rehearse, lose, reset, discard, allow)

pub ruleset opens = (awaits, waits, works, stuck)

pub one_edge : {b : Bool} {p q : Phase} → Edge b p q → Route b p q
one_edge e = then e here

pub Route-append : {b : Bool} {p q r : Phase} → Route b p q → Route b q r → Route b p r
Route-append here s = s
Route-append (then e r) s = then e (Route-append r s)

-- Published, rehearsed and cancelled posts stay as they are.
abbrev pub is_final : Status → Bool
is_final published = true
is_final dry_run = true
is_final cancelled = true
is_final _ = false

abbrev pub status_of : Phase → Status
status_of (at s b) = s

-- The approval is outstanding, and nothing was published.
abbrev pub IsAwaited : Phase → Type 0
IsAwaited (at s b) = (b ≡ true) × (s ≢ published) × (s ≢ dry_run)

Edge-IsAwaited : {p q : Phase} → Edge false p q → IsAwaited p → IsAwaited q
Edge-IsAwaited claim h = ground arith
Edge-IsAwaited claim_draft h = ground arith
Edge-IsAwaited put_back h = ground arith
Edge-IsAwaited put_back_draft h = ground arith
Edge-IsAwaited announce h = ground arith
Edge-IsAwaited rehearse h = ground arith
Edge-IsAwaited lose h = ground arith
Edge-IsAwaited reset h = ground arith
Edge-IsAwaited (discard o) h = ground arith
Edge-IsAwaited (allow n) h = ground arith

pub Route-IsAwaited : {p q : Phase} → Route false p q → IsAwaited p → IsAwaited q
Route-IsAwaited here h = h
Route-IsAwaited (then e r) h = Route-IsAwaited r (Edge-IsAwaited e h)

open_not_final : {s : Status} → IsOpen s → is_final s ≡ false
open_not_final awaits = refl
open_not_final waits = refl
open_not_final works = refl
open_not_final stuck = refl

edge_not_final : {m : Bool} {p q : Phase} → Edge m p q → is_final (status_of p) ≡ false
edge_not_final claim = refl
edge_not_final claim_draft = refl
edge_not_final put_back = refl
edge_not_final put_back_draft = refl
edge_not_final announce = refl
edge_not_final rehearse = refl
edge_not_final lose = refl
edge_not_final reset = refl
edge_not_final (discard o) = open_not_final o
edge_not_final (allow n) = refl

pub Route-final : {m : Bool} {p q : Phase} → Route m p q → is_final (status_of p) ≡ true → p ≡ q
Route-final here h = refl
Route-final (then e r) h = let open_end = edge_not_final e in absurd (ground arith)
