-- ===== src/Factory/Versions.antt =====
-- The versions of one asset class: the transactions that can change them, and what stays.
use asseto_solana_programs.Prelude.{
  ℕ, suc, ◌≤◌, ◌<◌, ◌≡◌, sym, ◌⊎◌, inl, inr, true, List, arith, ◌==◌, update, Bool-cases,
}
use asseto_solana_programs.Errors.{ok}
use asseto_solana_programs.Common.ProgramIds.{Pubkey}
use asseto_solana_programs.Common.State.{
  AccountInfo, empty, loaded, unreadable, data_is_empty, AssetClassVersion,
  asset_class_version_state_draft, asset_class_version_state_finalized,
}
use asseto_solana_programs.Factory.{Factory, AssetClassOwnership, AssetClassPendingOwner}
use asseto_solana_programs.Factory.Instructions.{
  create_asset_class, accept_asset_class_ownership, init_asset_class_version,
  enable_asset_class_version_functionalities, disable_asset_class_version_functionalities,
  finalize_asset_class_version,
}

-- The accounts of one class: its ownership, and its versions by number, as their seeds have it.
pub record World : Type 0 where
  pub ownership : AssetClassOwnership
  pub versions : ℕ → AccountInfo AssetClassVersion

pub data Step (config_id : ℕ) : World → World → Type 0 where
  accept :
      (f : Factory) (w : World) (pending : AssetClassPendingOwner) (signer : Pubkey)
      {ownership' : AssetClassOwnership} {pda : AccountInfo AssetClassPendingOwner}
      → accept_asset_class_ownership f w.ownership pending signer ≡ ok (ownership', pda)
      → Step config_id w (record { ownership = ownership'; versions = w.versions })
  init :
      (f : Factory) (w : World) (owner : Pubkey) (bump version : ℕ) {v : AssetClassVersion}
      → init_asset_class_version f w.ownership owner bump (w.versions version) config_id version
        ≡ ok v
      → Step config_id w
          (record { ownership = w.ownership; versions = update w.versions version (loaded v) })
  enable :
      (f : Factory) (w : World) (owner : Pubkey) (version : ℕ) (v : AssetClassVersion)
      (functionalities : List ℕ) {v' : AssetClassVersion}
      → w.versions version ≡ loaded v
      → enable_asset_class_version_functionalities f w.ownership owner v functionalities ≡ ok v'
      → Step config_id w
          (record { ownership = w.ownership; versions = update w.versions version (loaded v') })
  disable :
      (f : Factory) (w : World) (owner : Pubkey) (version : ℕ) (v : AssetClassVersion)
      (functionalities : List ℕ) {v' : AssetClassVersion}
      → w.versions version ≡ loaded v
      → disable_asset_class_version_functionalities f w.ownership owner v functionalities ≡ ok v'
      → Step config_id w
          (record { ownership = w.ownership; versions = update w.versions version (loaded v') })
  finalize :
      (f : Factory) (w : World) (owner : Pubkey) (version : ℕ) (v : AssetClassVersion)
      {ownership' : AssetClassOwnership} {v' : AssetClassVersion}
      → w.versions version ≡ loaded v
      → finalize_asset_class_version f w.ownership owner v ≡ ok (ownership', v')
      → Step config_id w
          (record { ownership = ownership'; versions = update w.versions version (loaded v') })

pub data Steps (config_id : ℕ) : World → World → Type 0 where
  stay : {w : World} → Steps config_id w w
  more : {w w' w'' : World} → Step config_id w w' → Steps config_id w' w'' → Steps config_id w w''

-- A class that has just been created.
pub data Start : World → Type 0 where
  created :
      (f : Factory) (manager : Pubkey) (bump : ℕ) (owner : Pubkey) {ownership : AssetClassOwnership}
      → create_asset_class f manager bump AccountInfo.empty owner ≡ ok ownership
      → Start (record { ownership = ownership; versions = λ _. AccountInfo.empty })

-- Versions 1 to the latest are finalized, the one after may be a draft, and there are no others.
abbrev pub Slot : ℕ → ℕ → AccountInfo AssetClassVersion → Type 0
Slot latest k empty = (k ≡ 0) ⊎ (latest < k)
Slot latest k (loaded v) =
    (v.version ≡ k)
    × (0 < k)
    × (((k ≤ latest) × (v.state ≡ asset_class_version_state_finalized))
        ⊎ ((k ≡ suc latest) × (v.state ≡ asset_class_version_state_draft)))
Slot latest k (unreadable _) = ⊥

abbrev pub IsOrdered : World → Type 0
IsOrdered w = (k : ℕ) → Slot w.ownership.latest_version k (w.versions k)

pub update_at :
    (versions : ℕ → AccountInfo AssetClassVersion) (latest version k : ℕ) (v : AssetClassVersion)
    → Slot latest version (loaded v)
    → Slot latest k (versions k)
    → Slot latest k (update versions version (loaded v) k)
update_at versions latest version k v new old = elim (Bool-cases (version == k)) [
  | inl here ↦ let at : version ≡ k = ground (arith, here) in rw (here, sym at) new
  | inr other ↦ rw other old
]

-- What the instruction requires, and what it writes.
pub init_facts :
    (f : Factory) (own : AssetClassOwnership) (owner : Pubkey) (bump config_id version : ℕ)
    (pda : AccountInfo AssetClassVersion) {v : AssetClassVersion}
    → init_asset_class_version f own owner bump pda config_id version ≡ ok v
    → (data_is_empty pda ≡ true)
      × (version ≡ suc own.latest_version)
      × (v.version ≡ version)
      × (v.state ≡ asset_class_version_state_draft)
unfolding init_asset_class_version
init_facts f own owner bump config_id version pda h =
    (ground arith, ground arith, ground arith, ground arith)

pub edit_facts :
    (f : Factory) (own : AssetClassOwnership) (owner : Pubkey) (v : AssetClassVersion) (fs : List ℕ)
    {v' : AssetClassVersion}
    → ((enable_asset_class_version_functionalities f own owner v fs ≡ ok v')
        ⊎ (disable_asset_class_version_functionalities f own owner v fs ≡ ok v'))
    → (v.state ≡ asset_class_version_state_draft) × (v'.version ≡ v.version) × (v'.state ≡ v.state)
unfolding enable_asset_class_version_functionalities disable_asset_class_version_functionalities
edit_facts f own owner v fs (inl h) = (ground arith, ground arith, ground arith)
edit_facts f own owner v fs (inr h) = (ground arith, ground arith, ground arith)

pub finalize_facts :
    (f : Factory) (own : AssetClassOwnership) (owner : Pubkey) (v : AssetClassVersion)
    {own' : AssetClassOwnership} {v' : AssetClassVersion}
    → finalize_asset_class_version f own owner v ≡ ok (own', v')
    → (v.state ≡ asset_class_version_state_draft)
      × (v.version ≡ suc own.latest_version)
      × (own'.latest_version ≡ suc own.latest_version)
      × (v'.version ≡ v.version)
      × (v'.state ≡ asset_class_version_state_finalized)
unfolding finalize_asset_class_version
finalize_facts f own owner v h =
    (ground arith, ground arith, ground arith, ground arith, ground arith)
