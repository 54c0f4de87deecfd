-- ===== src/Federation/Directory.antt =====
-- The deployments, their keys and their blocks: `registerDeployment` to `getVerificationKey` and
-- `isBlocked` to `removeBlock` of src/modules/federation/memory-store.ts.
use otto_control.Prelude.{
  ℕ, String, ◌===◌, Bool, true, false, not, ◌&&◌, ◌||◌, Option, none, some, List, get, has, set,
  delete, update, values, leb, ltb, ◌==◌, if◌then◌else◌, sort_by, take,
}
use Prim.Native.String.{◌++◌}
use otto_control.Errors.{Result, ok, err, conflict}
use otto_control.Federation.Records.{
  Deployment, DeploymentStatus, DeploymentKey, KeyStatus, Message, MessageStatus, Block, Store,
}

pub record DeploymentInput : Type 0 where
  pub id : String
  pub display_name : String
  pub origin : String
  pub capabilities : List String
  pub max_pending_messages : ℕ
  pub max_pending_bytes : ℕ
  pub max_requests_per_minute : ℕ
  pub now : ℕ

unfoldable pub register_deployment : Store → DeploymentInput → Deployment × Store
register_deployment s i =
    let previous = get i.id s.deployments in
    let row : Deployment = record {
      id = i.id;
      display_name = i.display_name;
      origin = i.origin;
      status = elim previous [ none ↦ DeploymentStatus.active | some p ↦ p.status ];
      capabilities = i.capabilities;
      max_pending_messages = i.max_pending_messages;
      max_pending_bytes = i.max_pending_bytes;
      max_requests_per_minute = i.max_requests_per_minute;
      created_at = elim previous [ none ↦ i.now | some p ↦ p.created_at ];
      updated_at = i.now;
    } in
    (row, record s { deployments = set i.id row s.deployments })

-- `status === 'pending' || status === 'claimed'`.
abbrev pub is_queued : Message → Bool
is_queued m = elim m.status [
  | MessageStatus.pending ↦ true
  | MessageStatus.claimed ↦ true
  | MessageStatus.delivered ↦ false
  | MessageStatus.expired ↦ false
]

abbrev pub expire : Message → Message
expire m = record m {
  status = MessageStatus.expired;
  claimed_until = none;
  claim_token_hash = none;
}

-- The loops that expire the queued messages which pass a test.
abbrev pub expire_if : (Message → Bool) → Message → Message
expire_if test m = if is_queued m && test m then expire m else m

abbrev pub is_party : String → Message → Bool
is_party d m = m.envelope.sender_deployment_id === d || m.envelope.recipient_deployment_id === d

abbrev pub is_active : DeploymentStatus → Bool
is_active DeploymentStatus.active = true
is_active _ = false

unfoldable pub set_deployment_status :
    Store → String → DeploymentStatus → ℕ → Option Deployment × Store
set_deployment_status s d status now = elim (get d s.deployments) [
  | none ↦ (none, s)
  | some old ↦
      let row : Deployment = record old { status = status; updated_at = now } in
      (
        some row,
        record s {
          deployments = set d row s.deployments;
          messages =
              if is_active status then s.messages else update (expire_if (is_party d)) s.messages;
        },
      )
]

unfoldable pub get_deployment : Store → String → Option Deployment
get_deployment s d = get d s.deployments

-- `localeCompare` is a parameter: whether one text stands before another.
abbrev pub newer : (String → String → Bool) → Deployment → Deployment → Bool
newer locale_lt x y =
    ltb y.updated_at x.updated_at || (x.updated_at == y.updated_at && locale_lt x.id y.id)

unfoldable pub list_deployments : (String → String → Bool) → Store → ℕ → List Deployment
list_deployments locale_lt s limit = take limit (sort_by (newer locale_lt) (values s.deployments))

abbrev pub pair_key : String → String → String
pair_key d k = d ++ ":" ++ k

pub record KeyInput : Type 0 where
  pub deployment_id : String
  pub key_id : String
  pub public_key_pem : String
  pub not_before : ℕ
  pub expires_at : Option ℕ
  pub now : ℕ

abbrev pub is_live : DeploymentKey → Bool
is_live k = elim k.status [ KeyStatus.active ↦ true | KeyStatus.revoked ↦ false ]

abbrev pub new_key : KeyInput → DeploymentKey
new_key i = record {
  deployment_id = i.deployment_id;
  key_id = i.key_id;
  public_key_pem = i.public_key_pem;
  status = KeyStatus.active;
  not_before = i.not_before;
  expires_at = i.expires_at;
  revoked_at = none;
  created_at = i.now;
}

abbrev pub put_key : Store → KeyInput → Result (DeploymentKey × Store)
put_key s i =
    ok (new_key i, record s { keys = set (pair_key i.deployment_id i.key_id) (new_key i) s.keys })

unfoldable pub register_key : Store → KeyInput → Result (DeploymentKey × Store)
register_key s i = elim (get (pair_key i.deployment_id i.key_id) s.keys) [
  | none ↦ put_key s i
  | some old ↦
      if is_live old
      then put_key s i
      else err (conflict "a revoked federation key id cannot be reused")
]

abbrev pub is_signed_by : String → String → Message → Bool
is_signed_by d k m = m.envelope.sender_deployment_id === d && m.signing_key_id === k

unfoldable pub revoke_key : Store → String → String → ℕ → Bool × Store
revoke_key s d k now = elim (get (pair_key d k) s.keys) [
  | none ↦ (false, s)
  | some old ↦
      if is_live old
      then (
        true,
        record s {
          keys =
              set (pair_key d k) (record old { status = KeyStatus.revoked; revoked_at = some now })
                s.keys;
          messages = update (expire_if (is_signed_by d k)) s.messages;
        },
      )
      else (false, s)
]

abbrev pub is_past : Option ℕ → ℕ → Bool
is_past none now = false
is_past (some t) now = leb t now

unfoldable pub get_active_key : Store → String → String → ℕ → Option DeploymentKey
get_active_key s d k now = elim (get (pair_key d k) s.keys) [
  | none ↦ none
  | some key ↦
      if not (is_live key) || ltb now key.not_before || is_past key.expires_at now
      then none
      else some key
]

unfoldable pub get_verification_key : Store → String → String → Option DeploymentKey
get_verification_key s d k = elim (get (pair_key d k) s.keys) [
  | none ↦ none
  | some key ↦ if is_live key then some key else none
]

unfoldable pub is_blocked : Store → String → String → Bool
is_blocked s sender recipient =
    has (pair_key sender recipient) s.blocks || has (pair_key recipient sender) s.blocks

abbrev pub is_between : String → String → Message → Bool
is_between a b m =
    (m.envelope.sender_deployment_id === a && m.envelope.recipient_deployment_id === b)
    || (m.envelope.sender_deployment_id === b && m.envelope.recipient_deployment_id === a)

unfoldable pub set_block : Store → Block → Store
set_block s i = record s {
  blocks = set (pair_key i.blocker_deployment_id i.blocked_deployment_id) i s.blocks;
  messages =
      update (expire_if (is_between i.blocker_deployment_id i.blocked_deployment_id)) s.messages;
}

unfoldable pub remove_block : Store → String → String → Bool × Store
remove_block s blocker blocked = (
  has (pair_key blocker blocked) s.blocks,
  record s { blocks = delete (pair_key blocker blocked) s.blocks },
)
