-- ===== src/NominalValue/History.antt =====
-- The publications of one asset, against a log of what was published for when.
use asseto_solana_programs.Prelude.{ℕ, ⊤, ◌≡◌, ap, subst, ◌∙◌, List, [], ◌∷◌, Bytes, arith}
use asseto_solana_programs.Prelude.Int.{ℤ, pos, ◌<ℤ◌, ◌≤ℤ◌}
use asseto_solana_programs.Errors.{ok}
use asseto_solana_programs.Common.State.{AccountInfo}
use asseto_solana_programs.Common.Guards.{AssetAccounts}
use asseto_solana_programs.NominalValue.{
  NominalValuePublishType, NominalValue, initialize_nominal_value, publish_nominal_value,
  republish_nominal_value,
}

pub record Publication : Type 0 where
  pub since : ℤ
  pub value : ℕ

-- A correction replaces the value of the newest publication.
abbrev pub corrected : ℕ → List Publication → List Publication
corrected value [] = []
corrected value (p ∷ ps) = record p { value = value } ∷ ps

-- The accounts that transactions lead to, with the clock of the last one and the log, newest first.
pub data Published : ℤ → NominalValue → List Publication → Type 0 where
  initialized :
      (now : ℤ) (a : AssetAccounts) (bump : ℕ) (decimals : ℕ) (currency : Bytes)
      (publish_type : NominalValuePublishType) {v : NominalValue}
      → initialize_nominal_value a bump AccountInfo.empty decimals currency publish_type ≡ ok v
      → Published now v []
  published :
      (now now' : ℤ) (a : AssetAccounts) (v : NominalValue) (log : List Publication) (value : ℕ)
      (since : ℤ) {v' : NominalValue}
      → Published now v log
      → now ≤ℤ now'
      → publish_nominal_value now' a v value since ≡ ok v'
      → Published now' v' (record { since = since; value = value } ∷ log)
  republished :
      (now now' : ℤ) (a : AssetAccounts) (v : NominalValue) (log : List Publication) (value : ℕ)
      (since : ℤ) {v' : NominalValue}
      → Published now v log
      → now ≤ℤ now'
      → republish_nominal_value a v value since ≡ ok v'
      → Published now' v' (corrected value log)

-- The account says what the newest entry of the log says.
abbrev pub Reports : NominalValue → List Publication → Type 0
Reports v [] = (v.nominal_value ≡ 0) × (v.effective_datetime ≡ pos 0)
Reports v (p ∷ _) = (v.nominal_value ≡ p.value) × (v.effective_datetime ≡ p.since)

-- Each entry is older than the one before it, and the oldest is later than 0.
abbrev pub IsDescending : List Publication → Type 0
IsDescending [] = ⊤
IsDescending (p ∷ []) = pos 0 <ℤ p.since
IsDescending (p ∷ q ∷ ps) = (q.since <ℤ p.since) × IsDescending (q ∷ ps)

abbrev pub IsPast : ℤ → List Publication → Type 0
IsPast now [] = ⊤
IsPast now (p ∷ _) = p.since <ℤ now

module _ (a : AssetAccounts) (v : NominalValue) (value : ℕ) (since : ℤ) where
  publish_facts :
      (now : ℤ) {v' : NominalValue}
      → publish_nominal_value now a v value since ≡ ok v'
      → (pos 0 <ℤ since)
        × (v.effective_datetime <ℤ since)
        × (since <ℤ now)
        × (v' ≡ record v { nominal_value = value; effective_datetime = since })
  unfolding publish_nominal_value
  publish_facts now h = ground (arith, h)

  republish_facts :
      {v' : NominalValue}
      → republish_nominal_value a v value since ≡ ok v'
      → (pos 0 <ℤ v.effective_datetime) × (v' ≡ record v { nominal_value = value })
  unfolding republish_nominal_value
  republish_facts h = ground (arith, h)

pushed-IsDescending :
    (v : NominalValue) (log : List Publication) (p : Publication)
    → Reports v log
    → pos 0 <ℤ p.since
    → v.effective_datetime <ℤ p.since
    → IsDescending log
    → IsDescending (p ∷ log)
pushed-IsDescending v [] p says positive later h = positive
pushed-IsDescending v (q ∷ qs) p (_, e) positive later h = (subst (λ t. t <ℤ p.since) e later, h)

corrected-IsDescending :
    (value : ℕ) (log : List Publication) → IsDescending log → IsDescending (corrected value log)
corrected-IsDescending value [] h = tt
corrected-IsDescending value (p ∷ []) h = h
corrected-IsDescending value (p ∷ q ∷ ps) h = h

-- A correction needs a value to correct: of an account that reports no publication there is none.
corrected-Reports :
    (v v' : NominalValue) (log : List Publication) (value : ℕ)
    → pos 0 <ℤ v.effective_datetime
    → v' ≡ record v { nominal_value = value }
    → Reports v log
    → Reports v' (corrected value log)
corrected-Reports v v' [] value positive e (_, at_zero) =
    absurd (omega (arith, subst (λ t. pos 0 <ℤ t) at_zero positive))
corrected-Reports v v' (p ∷ ps) value positive e (_, same) =
    (ap (λ x. x.nominal_value) e, ap (λ x. x.effective_datetime) e ∙ same)

corrected-IsPast :
    (now now' : ℤ) (value : ℕ) (log : List Publication)
    → now ≤ℤ now'
    → IsPast now log
    → IsPast now' (corrected value log)
corrected-IsPast now now' value [] le h = tt
corrected-IsPast now now' value (p ∷ ps) le h = omega (arith, le, h)

initialized-Reports :
    (a : AssetAccounts) (bump decimals : ℕ) (currency : Bytes)
    (publish_type : NominalValuePublishType) {v : NominalValue}
    → initialize_nominal_value a bump AccountInfo.empty decimals currency publish_type ≡ ok v
    → Reports v []
unfolding initialize_nominal_value
initialized-Reports a bump decimals currency publish_type h = ground (arith, h)

-- After any history the account reports the newest entry of the log, with its corrections, or zeros if
-- nothing was published; the times in the log descend strictly, all after 0, and the newest is before
-- the clock of the last transaction.
pub Published-Reports :
    {now : ℤ} {v : NominalValue} {log : List Publication}
    → Published now v log
    → Reports v log × IsDescending log × IsPast now log
Published-Reports (initialized now a bump decimals currency publish_type h) =
    (initialized-Reports a bump decimals currency publish_type h, tt, tt)
Published-Reports (published now now' a v log value since before le h) =
    let (says, descending, past) = Published-Reports before in
    let (positive, later, in_past, e) = publish_facts a v value since now' h in
    (
      (ap (λ x. x.nominal_value) e, ap (λ x. x.effective_datetime) e),
      pushed-IsDescending v log (record { since = since; value = value }) says positive later
          descending,
      in_past,
    )
Published-Reports {v = v'} (republished now now' a v log value since before le h) =
    let (says, descending, past) = Published-Reports before in
    let (positive, e) = republish_facts a v value since h in
    (
      corrected-Reports v v' log value positive e says,
      corrected-IsDescending value log descending,
      corrected-IsPast now now' value log le past,
    )
