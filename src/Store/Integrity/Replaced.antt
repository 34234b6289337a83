-- ===== src/Store/Integrity/Replaced.antt =====
-- Tables of internal/storage/storage.go with the rows of one of them replaced.
use windmill_gate.Base.{
  Bool, true, false, List, [], ◌∷◌, ◌++◌, any, if◌then◌else◌, Bytes, ◌≡◌, ◌∙◌, arith, subst, All,
  All-append, Bool-cases, inl, inr,
}
use windmill_gate.Base.Rows.{update, upsert, All-update}
use windmill_gate.Base.Results.{ok, err}
use windmill_gate.Store.{
  StoreError, TargetRow, SessionRow, CommandRow, ApprovalRow, OutputRow, ForwardRow, AliasRow,
  Tables, target_key, session_key, command_key, forward_key, has_key, require_changed,
}
use windmill_gate.Store.Integrity.{
  SessionIn, CommandIn, ApprovalIn, OutputIn, ForwardIn, AliasIn, IsConsistent, with_targets,
  with_sessions, with_commands, with_approvals, with_output, with_forwards, with_aliases,
  AreIn-IsLater, has_key-update,
}

-- A table is replaced by one that keeps its keys and whose rows have theirs.
module _ (t : Tables) (c : IsConsistent t) where
  pub targets_replaced :
      (new : List TargetRow)
      → ((k : Bytes) → has_key target_key k t.targets ≡ true → has_key target_key k new ≡ true)
      → IsConsistent (record t { targets = new })
  targets_replaced new keeps = with_targets _ t new (
      AreIn-IsLater t (record t { targets = new }) t c
        (record { targets = keeps; sessions = λ k h. h; commands = λ k h. h; forwards = λ k h. h }))

  pub sessions_replaced :
      (new : List SessionRow)
      → ((k : Bytes) → has_key session_key k t.sessions ≡ true → has_key session_key k new ≡ true)
      → All (SessionIn t) new
      → IsConsistent (record t { sessions = new })
  sessions_replaced new keeps h =
      AreIn-IsLater t _ _ (with_sessions t t new c h)
        (record { targets = λ k h. h; sessions = keeps; commands = λ k h. h; forwards = λ k h. h })

  pub commands_replaced :
      (new : List CommandRow)
      → ((k : Bytes) → has_key command_key k t.commands ≡ true → has_key command_key k new ≡ true)
      → All (CommandIn t) new
      → IsConsistent (record t { commands = new })
  commands_replaced new keeps h =
      AreIn-IsLater t _ _ (with_commands t t new c h)
        (record { targets = λ k h. h; sessions = λ k h. h; commands = keeps; forwards = λ k h. h })

  pub forwards_replaced :
      (new : List ForwardRow)
      → ((k : Bytes) → has_key forward_key k t.forwards ≡ true → has_key forward_key k new ≡ true)
      → All (ForwardIn t) new
      → IsConsistent (record t { forwards = new })
  forwards_replaced new keeps h =
      AreIn-IsLater t _ _ (with_forwards t t new c h)
        (record { targets = λ k h. h; sessions = λ k h. h; commands = λ k h. h; forwards = keeps })

  pub approvals_replaced :
      (new : List ApprovalRow)
      → All (ApprovalIn t) new
      → IsConsistent (record t { approvals = new })
  approvals_replaced new h =
      AreIn-IsLater t _ _ (with_approvals t t new c h) (record {
        targets = λ k h. h;
        sessions = λ k h. h;
        commands = λ k h. h;
        forwards = λ k h. h;
      })

  pub output_replaced :
      (new : List OutputRow) → All (OutputIn t) new → IsConsistent (record t { output = new })
  output_replaced new h =
      AreIn-IsLater t _ _ (with_output t t new c h) (record {
        targets = λ k h. h;
        sessions = λ k h. h;
        commands = λ k h. h;
        forwards = λ k h. h;
      })

  pub aliases_replaced :
      (new : List AliasRow) → All (AliasIn t) new → IsConsistent (record t { aliases = new })
  aliases_replaced new h =
      AreIn-IsLater t _ _ (with_aliases t t new c h) (record {
        targets = λ k h. h;
        sessions = λ k h. h;
        commands = λ k h. h;
        forwards = λ k h. h;
      })

pub require_changed-eq :
    {A : Type 0} (p : A → Bool) (f : A → A) (rows rows' : List A)
    → require_changed p f rows ≡ ok rows'
    → update p f rows ≡ rows'
unfolding require_changed
require_changed-eq p f rows rows' h = ground arith

module _ {A : Type 0} (e : StoreError) {x y : A} where
  pub guard-ok : (b : Bool) → (if b then err e else ok x) ≡ ok y → (b ≡ false) × (x ≡ y)
  guard-ok b h = (ground arith, ground arith)

  pub condition-ok : (b : Bool) → (if b then ok x else err e) ≡ ok y → (b ≡ true) × (x ≡ y)
  condition-ok b h = (ground arith, ground arith)

-- an update that leaves the keys
pub same_keys :
    {A : Type 0} (key : A → Bytes) (p : A → Bool) (f : A → A) (rows : List A)
    → ((r : A) → p r ≡ true → key (f r) ≡ key r)
    → (k : Bytes) → has_key key k rows ≡ true
    → has_key key k (update p f rows) ≡ true
same_keys key p f rows same k h = has_key-update key k p f same rows ∙ h

-- one row more, at the end
pub All-snoc :
    {A : Type 0} (P : A → Type 0) (rows : List A) (r : A)
    → All P rows
    → P r
    → All P (rows ++ r ∷ [])
All-snoc P rows r h k = All-append P rows (r ∷ []) h (k, tt)

pub All-upsert :
    {A : Type 0} (P : A → Type 0) (p : A → Bool) (f : A → A) (new : A)
    → ((r : A) → P r → P (f r))
    → P new
    → (rows : List A) → All P rows
    → All P (upsert p f new rows)
unfolding upsert
All-upsert P p f new keeps k rows h = elim (Bool-cases (any p rows)) [
  | inl known ↦ subst (All P) (ground arith) (All-update p f keeps rows h)
  | inr fresh ↦ subst (All P) (ground arith) (All-snoc P rows new h k)
]
