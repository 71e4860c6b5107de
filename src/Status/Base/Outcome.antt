-- ===== src/Status/Base/Outcome.antt =====
-- What buildBaseRuntimeStatus reports, as a table over seven phases: the abstract view of the
-- chains of condition writes.
use trussium_operator.Prelude.{ℕ, ◌≡◌, String, Bool, true, false, not, ◌&&◌, some, arith}
use trussium_operator.Prelude.Int.{ℤ, pos, ◌==ℤ◌, ltb_ℤ}
use trussium_operator.Kube.Condition.{
  ConditionStatus, cond_true, cond_false, ConditionApi, IsConditionApi,
}
use trussium_operator.Api.{TrussiumRuntimeStatus}
use trussium_operator.Status.References.{ReferenceValidationResult}
use trussium_operator.Status.Conditions.Lookup.{
  read, said, read-set, read-set_availability, set-available, set-ready,
}
use trussium_operator.Status.Base.{
  invalid_status, missing_status, at_zero_status, towards_zero_status, failed_status, ready_status,
  progressing_status,
}

pub data Phase : Type 0 where
  invalid absent at_zero towards_zero failing serving rolling : Phase

-- The conditions of a status that hold.
pub record Truths : Type 0 where
  pub configuration_valid : Bool
  pub progressing : Bool
  pub available : Bool
  pub ready : Bool
  pub degraded : Bool

-- Where some replicas are wanted, they are available when at least one is.
abbrev pub is_serving : ℤ → ℤ → Bool
is_serving desired available = not (desired ==ℤ pos 0) && ltb_ℤ (pos 0) available

abbrev pub row : Bool → Bool → Bool → Bool → Bool → Truths
row v p a r d = record {
  configuration_valid = v;
  progressing = p;
  available = a;
  ready = r;
  degraded = d;
}

-- The table. `reachable` is whether a wanted replica is available.
abbrev pub table : Phase → Bool → Truths
table invalid reachable = row false false reachable false true
table absent reachable = row true true reachable false false
table at_zero reachable = row true false false true false
table towards_zero reachable = row true true false false false
table failing reachable = row true false reachable false true
table serving reachable = row true false true true false
table rolling reachable = row true true reachable false false

abbrev pub truth : Bool → ConditionStatus
truth true = cond_true
truth false = cond_false

-- A status states the five conditions, all for generation `g`.
pub record Reports (m : ConditionApi) (s : TrussiumRuntimeStatus) (g : ℤ) (t : Truths)
    : Type 0 where
  pub says_valid : said (read m s "ConfigurationValid") ≡ some (truth t.configuration_valid, g)
  pub says_progressing : said (read m s "Progressing") ≡ some (truth t.progressing, g)
  pub says_available : said (read m s "Available") ≡ some (truth t.available, g)
  pub says_ready : said (read m s "Ready") ≡ some (truth t.ready, g)
  pub says_degraded : said (read m s "Degraded") ≡ some (truth t.degraded, g)

ruleset reads = (read-set, read-set_availability, set-available, set-ready)

module _ {m : ConditionApi} (laws : IsConditionApi m) (now : ℕ) (g : ℤ) where
  pub invalid_status-Reports :
      (w : ReferenceValidationResult) (desired : ℤ) (s : TrussiumRuntimeStatus)
      → Reports m
          (invalid_status m now g w desired s)
          g
          (table invalid (is_serving desired s.available_replicas))
  unfolding invalid_status
  invalid_status-Reports w desired s = record {
    says_valid = simp (reads, laws);
    says_progressing = simp (reads, laws);
    says_available = simp (reads, laws) (ground arith);
    says_ready = simp (reads, laws);
    says_degraded = simp (reads, laws);
  }

  pub missing_status-Reports :
      (desired : ℤ) (s : TrussiumRuntimeStatus)
      → said (read m s "ConfigurationValid") ≡ some (cond_true, g)
      → Reports m
          (missing_status m now g desired s)
          g
          (table absent (is_serving desired s.available_replicas))
  unfolding missing_status
  missing_status-Reports desired s v = record {
    says_valid = simp (reads, laws) v;
    says_progressing = simp (reads, laws);
    says_available = simp (reads, laws) (ground arith);
    says_ready = simp (reads, laws);
    says_degraded = simp (reads, laws);
  }

  pub at_zero_status-Reports :
      (s : TrussiumRuntimeStatus)
      → said (read m s "ConfigurationValid") ≡ some (cond_true, g)
      → Reports m (at_zero_status m now g s) g (table at_zero true)
  unfolding at_zero_status
  at_zero_status-Reports s v = record {
    says_valid = simp (reads, laws) v;
    says_progressing = simp (reads, laws);
    says_available = simp (reads, laws);
    says_ready = simp (reads, laws);
    says_degraded = simp (reads, laws);
  }

  pub towards_zero_status-Reports :
      (s : TrussiumRuntimeStatus)
      → said (read m s "ConfigurationValid") ≡ some (cond_true, g)
      → Reports m (towards_zero_status m now g s) g (table towards_zero true)
  unfolding towards_zero_status
  towards_zero_status-Reports s v = record {
    says_valid = simp (reads, laws) v;
    says_progressing = simp (reads, laws);
    says_available = simp (reads, laws);
    says_ready = simp (reads, laws);
    says_degraded = simp (reads, laws);
  }

  pub failed_status-Reports :
      (reason message : String) (desired : ℤ) (s : TrussiumRuntimeStatus)
      → said (read m s "ConfigurationValid") ≡ some (cond_true, g)
      → Reports m
          (failed_status m now g reason message desired s)
          g
          (table failing (is_serving desired s.available_replicas))
  unfolding failed_status
  failed_status-Reports reason message desired s v = record {
    says_valid = simp (reads, laws) v;
    says_progressing = simp (reads, laws);
    says_available = simp (reads, laws) (ground arith);
    says_ready = simp (reads, laws);
    says_degraded = simp (reads, laws);
  }

  pub ready_status-Reports :
      (s : TrussiumRuntimeStatus)
      → said (read m s "ConfigurationValid") ≡ some (cond_true, g)
      → Reports m (ready_status m now g s) g (table serving true)
  unfolding ready_status
  ready_status-Reports s v = record {
    says_valid = simp (reads, laws) v;
    says_progressing = simp (reads, laws);
    says_available = simp (reads, laws);
    says_ready = simp (reads, laws);
    says_degraded = simp (reads, laws);
  }

  pub progressing_status-Reports :
      (observed : Bool) (desired : ℤ) (s : TrussiumRuntimeStatus)
      → said (read m s "ConfigurationValid") ≡ some (cond_true, g)
      → Reports m
          (progressing_status m now g observed desired s)
          g
          (table rolling (is_serving desired s.available_replicas))
  unfolding progressing_status
  progressing_status-Reports observed desired s v = record {
    says_valid = simp (reads, laws) v;
    says_progressing = simp (reads, laws);
    says_available = simp (reads, laws) (ground arith);
    says_ready = simp (reads, laws);
    says_degraded = simp (reads, laws);
  }
