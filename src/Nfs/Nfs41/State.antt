-- ===== src/Nfs/Nfs41/State.antt =====
-- crates/mist-nfs/src/nfs41/state.rs: clients, sessions with their slots, stateids and delegations. The
-- maps of the source stand behind one lock each; here is their state between calls. Random numbers
-- are arguments.
pub mod WellFormed
use mist.Prelude.{
  ℕ, ◌+◌, ◌-◌, ◌*◌, ◌%◌, ◌^◌, ◌/◌, Bool, true, false, not, ◌&&◌, Option, none, some, List, [], ◌∷◌,
  ◌++◌, take, replicate, ltb, ◌==◌, if◌then◌else◌, ◌≡◌, ◌↔◌, bytes_eq, bytes_eq_refl,
  eq_of_bytes_eq, ==_iff,
}
use mist.Prelude.Map.{Map, Eq, insert, lookup, remove, retain}
use mist.Bytes.{to_be_bytes}
use mist.Proto.Types.{NodeKey}
use mist.Proto.Keys.{node_key}

abbrev pub fore_slots : ℕ
fore_slots = 64

abbrev pub back_slots : ℕ
back_slots = 16

abbrev pub lease_time : ℕ
lease_time = 90

-- Identifiers of 12 and of 16 bytes, and numbers, as keys.
pub id_eq_iff : (a b : List ℕ) → (bytes_eq a b ≡ true) ↔ (a ≡ b)
id_eq_iff a b = (eq_of_bytes_eq a b, λ h. rw h (bytes_eq_refl b))

instance abbrev pub id_key : Eq (List ℕ)
id_key = record { beq = bytes_eq; beq_iff = id_eq_iff }

instance abbrev pub clientid_key : Eq ℕ
clientid_key = record { beq = ◌==◌; beq_iff = ==_iff }

pub record Slot : Type 0 where
  pub seqid : ℕ
  pub reply : Option (List ℕ)
  pub had_uncached : Bool

pub record Session : Type 0 where
  pub id : List ℕ
  pub clientid : ℕ
  pub slots : List Slot
  pub cb_program : ℕ
  pub back_slot_seqid : ℕ

pub record Client : Type 0 where
  pub clientid : ℕ
  pub owner : List ℕ
  pub verifier : List ℕ
  pub confirmed : Bool
  pub sequence_id : ℕ

pub record OpenState : Type 0 where
  pub node : NodeKey
  pub seqid : ℕ
  pub share_access : ℕ
  pub owner : List ℕ

-- Instants are nanoseconds.
pub record Delegation : Type 0 where
  pub stateid_other : List ℕ
  pub node : NodeKey
  pub recalling : Bool
  pub granted_at : ℕ
  pub recalled_at : Option ℕ

pub record DelegStats : Type 0 where
  pub granted : ℕ
  pub recalls : ℕ
  pub returned : ℕ
  pub revoked : ℕ

pub record State : Type 0 where
  pub clients : Map ℕ Client
  pub sessions : Map (List ℕ) Session
  pub opens : Map (List ℕ) OpenState
  pub locks : Map (List ℕ) NodeKey
  pub delegations : Map NodeKey Delegation
  pub deleg_stats : DelegStats
  pub next_clientid : ℕ
  pub next_other : ℕ
  pub boot_verifier : List ℕ

-- `rand_u64() | 1`
abbrev pub odd : ℕ → ℕ
odd n = n / 2 * 2 + 1

abbrev pub new : (boot first : ℕ) → State
new boot first = record {
  clients = [];
  sessions = [];
  opens = [];
  locks = [];
  delegations = [];
  deleg_stats = record { granted = 0; recalls = 0; returned = 0; revoked = 0 };
  next_clientid = odd first;
  next_other = 1;
  boot_verifier = to_be_bytes 8 boot;
}

-- `clients.values().find(|c| c.owner == owner)`
unfoldable pub find_owner : List ℕ → Map ℕ Client → Option Client
find_owner owner [] = none
find_owner owner ((k, c) ∷ m) =
    let rest = find_owner owner m in if bytes_eq c.owner owner then some c else rest

unfoldable pub new_client : State → (owner verifier : List ℕ) → State × (ℕ × ℕ)
new_client s owner verifier =
    let clientid = s.next_clientid in
    let client : Client = record {
      clientid = clientid;
      owner = owner;
      verifier = verifier;
      confirmed = false;
      sequence_id = 1;
    } in
    (
      record s {
        next_clientid = (clientid + 1) % 2 ^ 64;
        clients = insert clientid client s.clients;
      },
      (clientid, 1),
    )

unfoldable pub exchange_id : State → (owner verifier : List ℕ) → State × (ℕ × ℕ)
unfolding find_owner new_client
exchange_id s owner verifier = elim (find_owner owner s.clients) [
  | none ↦ new_client s owner verifier
  | some existing ↦
      let stale = existing.clientid in
      let rebooted : State = record s {
        clients = remove stale s.clients;
        sessions = retain (λ e. not (e.clientid == stale)) s.sessions;
        opens = [];
        delegations = [];
      } in
      if bytes_eq existing.verifier verifier
      then (s, (existing.clientid, existing.sequence_id))
      else new_client rebooted owner verifier
]

abbrev pub default_slot : Slot
default_slot = record { seqid = 0; reply = none; had_uncached = false }

unfoldable pub create_session : State → (clientid cb_program rand : ℕ) → State × Option Session
create_session s clientid cb_program rand = elim (lookup clientid s.clients) [
  | none ↦ (s, none)
  | some c ↦
      let id = to_be_bytes 8 clientid ++ to_be_bytes 8 rand in
      let session : Session = record {
        id = id;
        clientid = clientid;
        slots = replicate fore_slots default_slot;
        cb_program = cb_program;
        back_slot_seqid = 0;
      } in
      (
        record s {
          clients = insert clientid (record c { confirmed = true }) s.clients;
          sessions = insert id session s.sessions;
        },
        some session,
      )
]

abbrev pub session : State → List ℕ → Option Session
session s id = lookup id s.sessions

abbrev pub is_some {ℓ} : {A : Type ℓ} → Option A → Bool
is_some none = false
is_some (some _) = true

unfoldable pub destroy_session : State → List ℕ → State × Bool
destroy_session s id =
    (record s { sessions = remove id s.sessions }, is_some (lookup id s.sessions))

unfoldable pub destroy_client : State → ℕ → State × Bool
destroy_client s clientid =
    let without : State = record s {
      clients = remove clientid s.clients;
      sessions = retain (λ e. not (e.clientid == clientid)) s.sessions;
      opens = [];
      locks = [];
      delegations = [];
    } in
    if is_some (lookup clientid s.clients) then (without, true) else (s, false)

unfoldable pub new_other : State → (kind : ℕ) → State × List ℕ
new_other s kind = (
  record s { next_other = (s.next_other + 1) % 2 ^ 64 },
  to_be_bytes 8 s.next_other ++ (kind ∷ take 3 s.boot_verifier),
)
