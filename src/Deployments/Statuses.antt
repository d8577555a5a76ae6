-- ===== src/Deployments/Statuses.antt =====
-- The changes of a deployment's status in api/app/services/device_updates.py.
use edgewatch_telemetry.Prelude.{◌≡◌, ◌⊎◌, inl, inr, sym, ◌∙◌, true, false, List, [], ◌∷◌, arith}
use mathlib.Core.Path.{subst}
use edgewatch_telemetry.Deployments.{
  DeploymentStatus, active, paused, aborted, halted, completed, is_active, is_paused, is_ended,
}

-- what an operation is to a deployment; `idle` is one that leaves its status alone
pub data Kind : Type 0 where
  pausing resuming aborting reporting idle : Kind

-- the changes that an operation of a kind can make
pub data StatusChange : Kind → DeploymentStatus → DeploymentStatus → Type 0 where
  pause : StatusChange pausing active paused
  resume : StatusChange resuming paused active
  abort_active : StatusChange aborting active aborted
  abort_paused : StatusChange aborting paused aborted
  abort_halted : StatusChange aborting halted aborted
  halt : StatusChange reporting active halted
  complete : StatusChange reporting active completed

-- no change, or one
abbrev pub Changes : Kind → DeploymentStatus → DeploymentStatus → Type 0
Changes kind s t = (s ≡ t) ⊎ StatusChange kind s t

-- no change or one by each operation in turn
abbrev pub Follows : List Kind → DeploymentStatus → DeploymentStatus → Type 0
Follows [] s u = s ≡ u
Follows (kind ∷ kinds) s u = (t : DeploymentStatus) × Changes kind s t × Follows kinds t u

-- the changes of one kind do not follow each other
no_second :
    {kind : Kind} {s t u : DeploymentStatus} → StatusChange kind s t → StatusChange kind t u → ⊥
no_second pause m = elim m [ ]
no_second resume m = elim m [ ]
no_second abort_active m = elim m [ ]
no_second abort_paused m = elim m [ ]
no_second abort_halted m = elim m [ ]
no_second halt m = elim m [ ]
no_second complete m = elim m [ ]

pub trans-Changes :
    {kind : Kind} {s t u : DeploymentStatus}
    → Changes kind s t
    → Changes kind t u
    → Changes kind s u
trans-Changes {kind} {s} {t} {u} (inl e) k = subst (λ x. Changes kind x u) (sym e) k
trans-Changes {kind} {s} {t} {u} (inr m) (inl e) = subst (λ x. Changes kind s x) e (inr m)
trans-Changes {kind} {s} {t} {u} (inr m) (inr m') = absurd (no_second m m')

pub from_active :
    (s t : DeploymentStatus) (kind : Kind)
    → is_active s ≡ true
    → StatusChange kind active t
    → Changes kind s t
from_active active t kind h m = inr m
from_active paused t kind h m = ground arith
from_active aborted t kind h m = ground arith
from_active halted t kind h m = ground arith
from_active completed t kind h m = ground arith

pub from_paused : (s : DeploymentStatus) → is_paused s ≡ true → Changes resuming s active
from_paused active h = ground arith
from_paused paused h = inr resume
from_paused aborted h = ground arith
from_paused halted h = ground arith
from_paused completed h = ground arith

pub to_aborted : (s : DeploymentStatus) → is_ended s ≡ false → Changes aborting s aborted
to_aborted active h = inr abort_active
to_aborted paused h = inr abort_paused
to_aborted aborted h = ground arith
to_aborted halted h = inr abort_halted
to_aborted completed h = ground arith

ended-Changes :
    (kind : Kind) (s t : DeploymentStatus) → Changes kind s t → is_ended s ≡ true → t ≡ s
ended-Changes kind s t (inl e) h = sym e
ended-Changes kind s t (inr pause) h = ground arith
ended-Changes kind s t (inr resume) h = ground arith
ended-Changes kind s t (inr abort_active) h = ground arith
ended-Changes kind s t (inr abort_paused) h = ground arith
ended-Changes kind s t (inr abort_halted) h = ground arith
ended-Changes kind s t (inr halt) h = ground arith
ended-Changes kind s t (inr complete) h = ground arith

pub ended-Follows :
    (kinds : List Kind) (s u : DeploymentStatus) → Follows kinds s u → is_ended s ≡ true → u ≡ s
ended-Follows [] s u e h = sym e
ended-Follows (kind ∷ kinds) s u (t, c, rest) h =
    let same = ended-Changes kind s t c h in
    ended-Follows kinds t u rest (subst (λ x. is_ended x ≡ true) (sym same) h) ∙ same
