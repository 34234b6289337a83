-- ===== src/Forward/Manager/Rows.antt =====
-- The rows of the forwards table that are active, in internal/storage/storage.go.
use windmill_gate.Base.{
  ℕ, Bool, true, false, ◌&&◌, ◌||◌, List, [], ◌∷◌, ◌++◌, Option, none, some, any, if◌then◌else◌,
  Bytes, is, equal, equal_iff, ◌≡◌, refl, arith, subst, Bool-cases, inl, inr,
}
use windmill_gate.Base.Maps.{lookup, insert, lookup-insert}
use windmill_gate.Base.Rows.{update}
use windmill_gate.Base.Results.{ok}
use windmill_gate.Store.{Tables, ForwardRow, has_key, forward_key}
use windmill_gate.Store.Forwards.{save_forward, closed_now}
use windmill_gate.Forward.Manager.{Info, Managed, Manager, row_of}

-- an active row of a forward to a target
unfoldable pub active_row : Bytes → Bytes → ForwardRow → Bool
active_row id target_id r = equal r.id id && is r.state "active" && equal r.target_id target_id

-- the managed forward is of the target
unfoldable pub held : Bytes → Option Managed → Bool
held target_id none = false
held target_id (some item) = equal item.info.target_id target_id

pub any-append :
    {A : Type 0} (p : A → Bool) (rows : List A) (r : A)
    → any p (rows ++ r ∷ []) ≡ (any p rows || p r)
any-append p [] r = ground arith
any-append p (s ∷ rows) r = ground (arith, any-append p rows r)

no_key :
    (id target_id : Bytes) (rows : List ForwardRow)
    → has_key forward_key id rows ≡ false
    → any (active_row id target_id) rows ≡ false
unfolding has_key active_row
no_key id target_id [] h = refl
no_key id target_id (r ∷ rows) h = ground (arith, no_key id target_id rows)

inactive :
    (j target_id actor : Bytes) (now : ℕ) (r : ForwardRow)
    → active_row j target_id (closed_now actor now r) ≡ false
unfolding active_row closed_now equal
inactive j target_id actor now r = ground arith

one_row :
    (id actor j target_id : Bytes) (now : ℕ) (r : ForwardRow)
    → active_row j target_id
        (if equal r.id id && is r.state "active" then closed_now actor now r else r)
      ≡ (if equal id j then false else active_row j target_id r)
unfolding active_row
one_row id actor j target_id now r = elim (Bool-cases (equal r.id id && is r.state "active")) [
  | inl closes ↦
      ground (
        arith,
        inactive j target_id actor now r,
        equal_iff r.id id,
        equal_iff r.id j,
        equal_iff id j,
      )
  | inr stays ↦ ground (arith, equal_iff r.id id, equal_iff r.id j, equal_iff id j)
]

pub closed_row :
    (id actor j target_id : Bytes) (now : ℕ) (rows : List ForwardRow)
    → any
        (active_row j target_id)
        (update (λ r. equal r.id id && is r.state "active") (closed_now actor now) rows)
      ≡ (if equal id j then false else any (active_row j target_id) rows)
unfolding update
closed_row id actor j target_id now [] = ground arith
closed_row id actor j target_id now (r ∷ rows) =
    ground (arith, one_row id actor j target_id now r, closed_row id actor j target_id now rows)

stale_row :
    (j target_id actor : Bytes) (now : ℕ) (r : ForwardRow)
    → active_row j target_id (if is r.state "active" then closed_now actor now r else r) ≡ false
unfolding active_row
stale_row j target_id actor now r = elim (Bool-cases (is r.state "active")) [
  | inl closes ↦ ground (arith, inactive j target_id actor now r)
  | inr stays ↦ ground arith
]

pub stale_rows :
    (j target_id actor : Bytes) (now : ℕ) (rows : List ForwardRow)
    → any (active_row j target_id) (update (λ r. is r.state "active") (closed_now actor now) rows)
      ≡ false
unfolding update
stale_rows j target_id actor now [] = refl
stale_rows j target_id actor now (r ∷ rows) =
    ground (arith, stale_row j target_id actor now r, stale_rows j target_id actor now rows)

pub saved_row :
    (f : ForwardRow) (t t' : Tables)
    → save_forward f t ≡ ok t'
    → (t'.forwards ≡ t.forwards ++ record f { closed_by = none; closed_at = none } ∷ [])
      × (has_key forward_key f.id t.forwards ≡ false)
unfolding save_forward
saved_row f t t' h = (ground arith, ground arith)

pub new_row :
    (i : Info) (handle : ℕ) (m : Manager) (j target_id : Bytes)
    → is i.state "active" ≡ true
    → has_key forward_key i.id m.tables.forwards ≡ false
    → any (active_row j target_id) m.tables.forwards ≡ held target_id (lookup j m.forwards)
    → (any (active_row j target_id) m.tables.forwards || active_row j target_id (row_of i))
      ≡ held target_id (lookup j (insert i.id (record { info = i; handle = handle }) m.forwards))
unfolding active_row held
new_row i handle m j target_id active fresh before = elim (Bool-cases (equal i.id j)) [
  | inl own ↦
      let item : Managed = record { info = i; handle = handle } in
      let same : i.id ≡ j = (equal_iff i.id j).0 own in
      let none_before : any (active_row j target_id) m.tables.forwards ≡ false =
        no_key j target_id m.tables.forwards
          (subst (λ k. has_key forward_key k m.tables.forwards ≡ false) same fresh) in
      ground (arith, lookup-insert i.id j item m.forwards, none_before)
  | inr other ↦
      ground (arith, lookup-insert i.id j (record { info = i; handle = handle }) m.forwards)
]
