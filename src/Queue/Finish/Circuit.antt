-- ===== src/Queue/Finish/Circuit.antt =====
-- The circuit breaker of an origin in app/crawl/repository.py: `retry_task` counts outages,
-- `claim_task` lets a probe through, and `complete_task` closes the circuit.
use crawltrove.Base.{
  Row, update_where, eq_iff, ◌∙◌, ℕ, ◌+◌, ◌≡◌, refl, Bool, true, false, List, [], ◌∷◌, ltb,
  if◌then◌else◌, ap, Bool-cases, inl, inr,
}
use crawltrove.Queue.States.{CircuitState, ErrorClass, transport, http, open_circuit, half_open}
use crawltrove.Queue.Rows.{Origin, Db}
use crawltrove.Queue.Claim.{probe_circuit, origin_named, is_open_circuit, half_open_circuit}
use crawltrove.Queue.Finish.{cool_down, close_circuit}

-- What the transactions do to the row of an origin, each at its time: a failure that retry_task
-- records, with the time at which the task is available again; a claim that passes the circuit; and
-- a page that complete_task stores.
pub data OriginStep : Type 0 where
  fails : ℕ → ℕ → ErrorClass → OriginStep
  probes : ℕ → OriginStep
  succeeds : ℕ → OriginStep

-- `claim_task`, once the circuit does not hold the task back
abbrev pub probe : ℕ → Origin → Origin
probe now o = if is_open_circuit o.circuit_state then half_open_circuit now o else o

updated-Row :
    (p : Origin → Bool) (o : Origin) (f : Origin → Origin) (rows : List Origin)
    → p o ≡ true
    → Row o rows
    → Row (f o) (update_where p f rows)
unfolding update_where
updated-Row p o f [] h r = r
updated-Row p o f (x ∷ rows) h (inl e) = rw (ap p e ∙ h) (inl (ap f e))
updated-Row p o f (x ∷ rows) h (inr r) = elim (Bool-cases (p x)) [
  | inl e ↦ rw e (inr (updated-Row p o f rows h r))
  | inr e ↦ rw e (inr (updated-Row p o f rows h r))
]

-- The claim does this to the origin's row in the table.
probe_circuit-probe :
    (db : Db) (now : ℕ) (o : Origin)
    → Row o db.origins
    → Row (probe now o) (probe_circuit db now o).origins
probe_circuit-probe db now o r = elim (Bool-cases (is_open_circuit o.circuit_state)) [
  | inl e ↦ rw e (
      updated-Row (origin_named o.origin_key) o (half_open_circuit now) db.origins
        ((eq_iff o.origin_key o.origin_key).1 refl) r)
  | inr e ↦ rw e r
]

abbrev pub origin_step : OriginStep → Origin → Origin
origin_step (fails now available cls) = cool_down now available cls
origin_step (probes now) = probe now
origin_step (succeeds now) = close_circuit now

abbrev pub origin_steps : List OriginStep → Origin → Origin
origin_steps [] o = o
origin_steps (x ∷ rest) o = origin_steps rest (origin_step x o)

-- The circuit as its rule has it: how many outages there were since the last success, and whether a
-- claim passed it after the last failure. Five outages open it, and such a claim is then a probe.
pub record Breaker : Type 0 where
  pub outages : ℕ
  pub is_probing : Bool

-- A failure of class transport or http is an outage.
abbrev pub outages_of : ErrorClass → ℕ
outages_of transport = 1
outages_of http = 1
outages_of _ = 0

abbrev pub breaker_step : OriginStep → Breaker → Breaker
breaker_step (fails now available cls) b = record {
  outages = b.outages + outages_of cls;
  is_probing = false;
}
breaker_step (probes now) b = record { outages = b.outages; is_probing = true }
breaker_step (succeeds now) b = record { outages = 0; is_probing = false }

abbrev pub breaker_steps : List OriginStep → Breaker → Breaker
breaker_steps [] b = b
breaker_steps (x ∷ rest) b = breaker_steps rest (breaker_step x b)

abbrev pub circuit_of : Breaker → CircuitState
circuit_of b =
    if ltb b.outages 5
    then CircuitState.closed
    else if b.is_probing
    then half_open
    else open_circuit

pub record IsBreaker (b : Breaker) (o : Origin) : Type 0 where
  pub failures : o.consecutive_failures ≡ b.outages
  pub circuit : o.circuit_state ≡ circuit_of b

abbrev pub new_breaker : Breaker
new_breaker = record { outages = 0; is_probing = false }
