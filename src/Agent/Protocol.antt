-- ===== src/Agent/Protocol.antt =====
-- internal/protocol/protocol.go: requests, and frames that end with a newline. JSON is an argument:
-- `parse` is `json.Valid` with `json.Unmarshal`, and `marshal` is `json.Marshal`.
pub mod Frames
use windmill_gate.Base.{
  ℕ, zero, suc, ◌+◌, ◌*◌, Bool, true, false, not, ◌&&◌, ◌||◌, List, [], ◌∷◌, ◌++◌, Option, none,
  some, ◌==◌, ltb, if◌then◌else◌, Bytes, codes, is, is_empty, length,
}
use windmill_gate.Base.Int.{ℤ, pos, negsuc}
use windmill_gate.Base.Results.{Result, ok, err}

pub data ProtocolError : Type 0 where
  end_of_file frame_too_long malformed not_marshalled : ProtocolError
  bad_version no_agent no_command no_command_id no_port no_forward_id no_hostname unknown_type :
      ProtocolError

abbrev pub version : ℕ
version = 1

abbrev pub max_frame_size : ℕ
max_frame_size = 1024 * 1024

pub record Request : Type 0 where
  pub type : Bytes
  pub version_of : ℤ
  pub agent : Bytes
  pub fingerprint : Bytes
  pub command : Bytes
  pub command_id : Bytes
  pub remote_port : ℕ
  pub hostname : Bytes

same_version : ℤ → Bool
same_version (pos n) = n == version
same_version (negsuc n) = false

required : Bool → ProtocolError → Result ProtocolError (Unit {0})
required true e = ok tt
required false e = err e

-- `Validate`
unfoldable pub validate : Request → Result ProtocolError (Unit {0})
unfolding required same_version is_empty
validate r =
    if is r.type "hello"
    then (if same_version r.version_of
        then required (not (is_empty r.agent)) no_agent
        else err bad_version)
    else if is r.type "exec"
    then required (not (is_empty r.command)) no_command
    else if is r.type "cancel"
    then required (not (is_empty r.command_id)) no_command_id
    else if is r.type "forward_add"
    then required (not (r.remote_port == 0)) no_port
    else if is r.type "forward_list"
    then ok tt
    else if is r.type "forward_remove"
    then required (not (is_empty r.command_id)) no_forward_id
    else if is r.type "host_add"
    then required (not (is_empty r.hostname) && not (r.remote_port == 0)) no_hostname
    else if is r.type "host_list"
    then ok tt
    else if is r.type "host_remove"
    then required (not (is_empty r.hostname)) no_hostname
    else err unknown_type

-- the bytes up to a newline or to the end, whether the newline was there, and what is left
unfoldable pub read_line : Bytes → Bytes × Bool × Bytes
read_line [] = ([], false, [])
read_line (c ∷ cs) =
    let (line, ended, rest) = read_line cs in
    if c == b'\n' then ([], true, cs) else (c ∷ line, ended, rest)

-- The loop of `Decode` over the parts that its buffer holds refuses a frame as soon as they are too
-- long together, its newline counted; what an error leaves unread is not modelled.
unfoldable pub read_frame : Bytes → Result ProtocolError (Bytes × Bytes)
unfolding read_line
read_frame input =
    let (line, ended, rest) = read_line input in
    if ltb max_frame_size (if ended then suc (length line) else length line)
    then err frame_too_long
    else if not ended && is_empty line
    then err end_of_file
    else ok (line, rest)

module _ {A : Type 0} (parse : Bytes → Option A) (marshal : A → Option Bytes) where
  -- `Decode`: the value, and what is left of the input
  unfoldable pub decode : Bytes → Result ProtocolError (A × Bytes)
  unfolding read_frame
  decode input = elim (read_frame input) [
    | err e ↦ err e
    | ok (frame, rest) ↦ elim (parse frame) [ none ↦ err malformed | some a ↦ ok (a, rest) ]
  ]

  -- `Encode`: the frame that is written
  unfoldable pub encode : A → Result ProtocolError Bytes
  encode a = elim (marshal a) [
    | none ↦ err not_marshalled
    | some frame ↦
        if ltb max_frame_size (length frame + 1)
        then err frame_too_long
        else ok (frame ++ b'\n' ∷ [])
  ]
