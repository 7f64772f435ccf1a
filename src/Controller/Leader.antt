-- ===== src/Controller/Leader.antt =====
-- controller/main.py: `LeaderElector`, which lets one replica of the controller work at a time.
pub mod Exclusion
use ship_zen_gcp.Prelude.{
  ℕ, suc, ◌+◌, ◌-◌, ◌≤◌, Bool, true, false, Option, none, some, ltb, ◌==◌, if◌then◌else◌, is_some,
}
use ship_zen_gcp.Database.{same_id}

-- The Lease object, its times in seconds. A replica is told by a number for its name.
pub record Lease : Type 0 where
  pub holder : Option ℕ
  pub renew_time : Option ℕ
  pub acquire_time : Option ℕ
  pub duration : Option ℕ
  pub transitions : ℕ

-- How the cluster serves one attempt: the write is done; the read fails (not with 404); the write is
-- refused, as it is when another replica has written since the read (the object carries its version);
-- or the write is done but its answer is lost.
pub data Service : Type 0 where
  done unreachable refused lost : Service

abbrev pub written : Service → Lease → Option Lease → Bool × Option Lease
written done new old = (true, some new)
written lost new old = (false, some new)
written refused new old = (false, old)
written unreachable new old = (false, old)

abbrev pub last_seen : Option ℕ → Option ℕ → Option ℕ
last_seen none acquired = acquired
last_seen (some r) acquired = some r

-- `lease_duration_seconds or self.lease_duration`
abbrev pub or_own : Option ℕ → ℕ → ℕ
or_own none own = own
or_own (some n) own = if n == 0 then own else n

-- `age > ...`, if the lease has a time at all
abbrev pub older : ℕ → ℕ → Option ℕ → Bool
older now limit none = false
older now limit (some t) = ltb limit (now - t)

unfoldable pub is_expired : ℕ → ℕ → Lease → Bool
is_expired now own l = older now (or_own l.duration own) (last_seen l.renew_time l.acquire_time)

unfoldable pub renewed : ℕ → ℕ → Lease → Lease
renewed now own l = record l { renew_time = some now; duration = some own }

unfoldable pub taken_over : ℕ → ℕ → ℕ → Lease → Lease
taken_over me now own l = record {
  holder = some me;
  renew_time = some now;
  acquire_time = some now;
  duration = some own;
  transitions = l.transitions + 1;
}

unfoldable pub new_lease : ℕ → ℕ → ℕ → Lease
new_lease me now own = record {
  holder = some me;
  renew_time = some now;
  acquire_time = some now;
  duration = some own;
  transitions = 1;
}

-- `try_acquire_or_renew`: whether the replica is the leader, and the Lease afterwards.
unfoldable pub try_acquire_or_renew : ℕ → ℕ → ℕ → Service → Option Lease → Bool × Option Lease
unfolding is_expired renewed taken_over new_lease same_id
try_acquire_or_renew me own now served none = written served (new_lease me now own) none
try_acquire_or_renew me own now served (some l) =
    if same_id l.holder (some me)
    then written served (renewed now own l) (some l)
    else if is_expired now own l
    then written served (taken_over me now own l) (some l)
    else (false, some l)

-- `release` of a leader that stops; its errors are logged.
unfoldable pub release : ℕ → Bool → Option Lease → Option Lease
unfolding same_id
release me served none = none
release me served (some l) =
    if same_id l.holder (some me)
    then (if served then some (record l { holder = none }) else some l)
    else some l

-- The replicas and the Lease: `leading` says for each replica when the attempt began by which it last
-- became or stayed the leader, if `is_leader` is set.
pub record Replicas : Type 0 where
  pub clock : ℕ
  pub lease : Option Lease
  pub leading : ℕ → Option ℕ

abbrev pub with_claim : ℕ → Option ℕ → (ℕ → Option ℕ) → ℕ → Option ℕ
with_claim me claim leading r = if r == me then claim else leading r

abbrev pub claim_of : Bool → ℕ → Option ℕ
claim_of won now = if won then some now else none

unfoldable pub attempt : ℕ → ℕ → Service → Replicas → Replicas
unfolding try_acquire_or_renew
attempt own me served s =
    let r = try_acquire_or_renew me own s.clock served s.lease in
    record s { lease = r.1; leading = with_claim me (claim_of r.0 s.clock) s.leading }

unfoldable pub resign : ℕ → Bool → Replicas → Replicas
unfolding release
resign me served s = record s {
  lease = if is_some (s.leading me) then release me served s.lease else s.lease;
  leading = with_claim me none s.leading;
}

-- What can happen: time passes, a replica tries, a leader stops. Attempts whose writes are done take
-- effect one after the other, because the cluster refuses a write over a newer version.
pub data Step (own : ℕ) : Replicas → Replicas → Type 0 where
  tick : (n : ℕ) (s : Replicas) → Step own s (record s { clock = s.clock + n })
  try : (me : ℕ) (served : Service) (s : Replicas) → Step own s (attempt own me served s)
  stop : (me : ℕ) (served : Bool) (s : Replicas) → Step own s (resign me served s)

pub data Steps (own : ℕ) : Replicas → Replicas → Type 0 where
  none_yet : (s : Replicas) → Steps own s s
  then_one : {s t u : Replicas} → Steps own s t → Step own t u → Steps own s u
