-- ===== src/Store/Integrity.antt =====
-- The references between the tables: what `PRAGMA foreign_keys` and the order of the writes keep.
pub mod Replaced
pub mod Steps
use windmill_gate.Base.{
  ℕ, Bool, true, false, not, ◌&&◌, ◌||◌, List, [], ◌∷◌, ◌++◌, Option, none, some, any,
  if◌then◌else◌, Bytes, equal, equal_iff, ◌≡◌, refl, ap, sym, ◌∙◌, arith, subst, All, All-append,
  Bool-cases, inl, inr,
}
use windmill_gate.Base.Int.{ℤ}
use windmill_gate.Base.Rows.{update, upsert, All-update}
use windmill_gate.Base.Results.{Result, ok, err, ◌>>=◌, bind-eq-ok, ok-eq, Result-cases}
use windmill_gate.Command.{Command}
use windmill_gate.Policy.Engine.{Verdict}
use windmill_gate.Approval.{HumanDecision}
use windmill_gate.Target.{Target, Binding}
use windmill_gate.Store.{
  StoreError, constraint_failed, TargetRow, SessionRow, CommandRow, ApprovalRow, OutputRow,
  ForwardRow, AliasRow, Tables, is_null, target_key, session_key, command_key, forward_key, has_key,
  require_changed, nullable,
}
use windmill_gate.Store.Agents.{
  save_target, rebind, detach_target, start_agent_session, end_agent_session, create_command,
  progressed, update_command, record_approval,
}
use windmill_gate.Store.Output.{
  append_output, append_within, rows_of, used_bytes, any_truncated, output_row,
}
use windmill_gate.Store.Forwards.{
  save_forward, closed_now, close_forward, close_stale_forwards, replaced, save_host_alias,
  remove_host_alias,
}

-- A statement that changes the store.
pub data Operation : Type 0 where
  saves_target : Binding → Operation
  detaches : Bytes → ℕ → Operation
  starts_session : Bytes → Bytes → Bytes → Bytes → Bytes → ℕ → Operation
  ends_session : Bytes → ℕ → Operation
  creates : Command → Verdict → Operation
  updates : Command → Operation
  records : HumanDecision → Operation
  appends : ℕ → Bytes → Bytes → Bytes → ℤ → Operation
  saves_forward : ForwardRow → Operation
  closes_forward : Bytes → Bytes → ℕ → Operation
  closes_stale : ℕ → Operation
  saves_alias : AliasRow → Operation
  removes_alias : Bytes → Bytes → ℕ → Operation

-- the tables after an operation
unfoldable pub perform : Operation → Tables → Result StoreError Tables
perform (saves_target b) t = save_target b t
perform (detaches id now) t = detach_target id now t
perform (starts_session id identity target transport fingerprint now) t =
    start_agent_session id identity target transport fingerprint now t
perform (ends_session id now) t = end_agent_session id now t
perform (creates c v) t = create_command c v t
perform (updates c) t = update_command c t
perform (records d) t = record_approval d t
perform (appends now id stream more limit) t =
    append_output now id stream more limit t >>= λ r. ok r.1
perform (saves_forward f) t = save_forward f t
perform (closes_forward id actor now) t = close_forward id actor now t
perform (closes_stale now) t = close_stale_forwards now t
perform (saves_alias a) t = save_host_alias a t
perform (removes_alias hostname actor now) t = remove_host_alias hostname actor now t

-- an operation that fails leaves the tables
unfoldable pub perform_all : List Operation → Tables → Tables
unfolding perform
perform_all [] t = t
perform_all (o ∷ os) t = elim (perform o t) [ ok t' ↦ perform_all os t' | err e ↦ perform_all os t ]

-- The keys that a row needs.
abbrev pub SessionIn : Tables → SessionRow → Type 0
SessionIn t r = has_key target_key r.target_id t.targets ≡ true

abbrev pub CommandIn : Tables → CommandRow → Type 0
CommandIn t r =
    (has_key session_key r.command.agent_session_id t.sessions ≡ true)
    × (has_key target_key r.command.target_id t.targets ≡ true)

abbrev pub ApprovalIn : Tables → ApprovalRow → Type 0
ApprovalIn t r = has_key command_key r.decision.command_id t.commands ≡ true

abbrev pub OutputIn : Tables → OutputRow → Type 0
OutputIn t r = has_key command_key r.command_id t.commands ≡ true

abbrev pub ForwardIn : Tables → ForwardRow → Type 0
ForwardIn t r = has_key target_key r.target_id t.targets ≡ true

abbrev pub AliasIn : Tables → AliasRow → Type 0
AliasIn t r =
    (has_key target_key r.target_id t.targets ≡ true)
    × (has_key forward_key r.forward_id t.forwards ≡ true)

-- Every reference of the rows of the second tables has its key in the first.
pub record AreIn (keys rows : Tables) : Type 0 where
  pub sessions : All (SessionIn keys) rows.sessions
  pub commands : All (CommandIn keys) rows.commands
  pub approvals : All (ApprovalIn keys) rows.approvals
  pub output : All (OutputIn keys) rows.output
  pub forwards : All (ForwardIn keys) rows.forwards
  pub aliases : All (AliasIn keys) rows.aliases

abbrev pub IsConsistent : Tables → Type 0
IsConsistent t = AreIn t t

pub with_targets :
    (keys rows : Tables) (new : List TargetRow)
    → AreIn keys rows
    → AreIn keys (record rows { targets = new })
with_targets keys rows new c = record {
  sessions = c.sessions;
  commands = c.commands;
  approvals = c.approvals;
  output = c.output;
  forwards = c.forwards;
  aliases = c.aliases;
}

pub with_sessions :
    (keys rows : Tables) (new : List SessionRow)
    → AreIn keys rows
    → All (SessionIn keys) new
    → AreIn keys (record rows { sessions = new })
with_sessions keys rows new c h = record {
  sessions = h;
  commands = c.commands;
  approvals = c.approvals;
  output = c.output;
  forwards = c.forwards;
  aliases = c.aliases;
}

pub with_commands :
    (keys rows : Tables) (new : List CommandRow)
    → AreIn keys rows
    → All (CommandIn keys) new
    → AreIn keys (record rows { commands = new })
with_commands keys rows new c h = record {
  sessions = c.sessions;
  commands = h;
  approvals = c.approvals;
  output = c.output;
  forwards = c.forwards;
  aliases = c.aliases;
}

pub with_approvals :
    (keys rows : Tables) (new : List ApprovalRow)
    → AreIn keys rows
    → All (ApprovalIn keys) new
    → AreIn keys (record rows { approvals = new })
with_approvals keys rows new c h = record {
  sessions = c.sessions;
  commands = c.commands;
  approvals = h;
  output = c.output;
  forwards = c.forwards;
  aliases = c.aliases;
}

pub with_output :
    (keys rows : Tables) (new : List OutputRow)
    → AreIn keys rows
    → All (OutputIn keys) new
    → AreIn keys (record rows { output = new })
with_output keys rows new c h = record {
  sessions = c.sessions;
  commands = c.commands;
  approvals = c.approvals;
  output = h;
  forwards = c.forwards;
  aliases = c.aliases;
}

pub with_forwards :
    (keys rows : Tables) (new : List ForwardRow)
    → AreIn keys rows
    → All (ForwardIn keys) new
    → AreIn keys (record rows { forwards = new })
with_forwards keys rows new c h = record {
  sessions = c.sessions;
  commands = c.commands;
  approvals = c.approvals;
  output = c.output;
  forwards = h;
  aliases = c.aliases;
}

pub with_aliases :
    (keys rows : Tables) (new : List AliasRow)
    → AreIn keys rows
    → All (AliasIn keys) new
    → AreIn keys (record rows { aliases = new })
with_aliases keys rows new c h = record {
  sessions = c.sessions;
  commands = c.commands;
  approvals = c.approvals;
  output = c.output;
  forwards = c.forwards;
  aliases = h;
}

-- No key is lost.
pub record IsLater (t t' : Tables) : Type 0 where
  pub targets :
      (k : Bytes) → has_key target_key k t.targets ≡ true → has_key target_key k t'.targets ≡ true
  pub sessions :
      (k : Bytes)
      → has_key session_key k t.sessions ≡ true
      → has_key session_key k t'.sessions ≡ true
  pub commands :
      (k : Bytes)
      → has_key command_key k t.commands ≡ true
      → has_key command_key k t'.commands ≡ true
  pub forwards :
      (k : Bytes)
      → has_key forward_key k t.forwards ≡ true
      → has_key forward_key k t'.forwards ≡ true

pub All_mono :
    {A : Type 0} {P Q : A → Type 0} → ((a : A) → P a → Q a) → (xs : List A) → All P xs → All Q xs
All_mono f [] h = tt
All_mono f (x ∷ xs) (h, hs) = (f x h, All_mono f xs hs)

pub AreIn-IsLater : (t t' rows : Tables) → AreIn t rows → IsLater t t' → AreIn t' rows
AreIn-IsLater t t' rows c l = record {
  sessions = All_mono (λ r h. l.targets r.target_id h) rows.sessions c.sessions;
  commands =
      All_mono
        (λ r h. (l.sessions r.command.agent_session_id h.0, l.targets r.command.target_id h.1))
        rows.commands c.commands;
  approvals = All_mono (λ r h. l.commands r.decision.command_id h) rows.approvals c.approvals;
  output = All_mono (λ r h. l.commands r.command_id h) rows.output c.output;
  forwards = All_mono (λ r h. l.targets r.target_id h) rows.forwards c.forwards;
  aliases =
      All_mono (λ r h. (l.targets r.target_id h.0, l.forwards r.forward_id h.1)) rows.aliases
        c.aliases;
}

module _ {A : Type 0} (key : A → Bytes) (k : Bytes) where
  pub has_key-append :
      (rows : List A) (r : A) → has_key key k rows ≡ true → has_key key k (rows ++ r ∷ []) ≡ true
  unfolding has_key
  has_key-append [] r h = ground arith
  has_key-append (s ∷ rows) r h = elim (Bool-cases (equal (key s) k)) [
    | inl here ↦ ground arith
    | inr later ↦ ground (arith, has_key-append rows r (ground arith))
  ]

  pub has_key-update :
      (p : A → Bool) (f : A → A)
      → ((r : A) → p r ≡ true → key (f r) ≡ key r)
      → (rows : List A) → has_key key k (update p f rows) ≡ has_key key k rows
  unfolding has_key update
  has_key-update p f same [] = refl
  has_key-update p f same (r ∷ rows) = elim (Bool-cases (p r)) [
    | inl hit ↦ ground (arith, same r hit, has_key-update p f same rows)
    | inr miss ↦ ground (arith, has_key-update p f same rows)
  ]

  pub has_key-upsert :
      (p : A → Bool) (f : A → A) (new : A)
      → ((r : A) → p r ≡ true → key (f r) ≡ key r)
      → (rows : List A) → has_key key k rows ≡ true
      → has_key key k (upsert p f new rows) ≡ true
  unfolding upsert
  has_key-upsert p f new same rows h =
      ground (arith, has_key-append rows new h, has_key-update p f same rows)
