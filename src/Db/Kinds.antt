-- ===== src/Db/Kinds.antt =====
-- The enumerations of crates/oxidarr-db/src/{indexer,application}.rs, the strings that their
-- columns store, and src/error.rs.
use oxidarr.Common.{
  String, ◌≡◌, refl, sym, subst, ◌↔◌, if◌then◌else◌, str_eq, str_eq_iff, arith, Text,
}
use oxidarr.Common.Outcome.{Outcome, ok, err}

pub data IndexerKind : Type 0 where
  cardigann newznab torznab : IndexerKind

pub data AppKind : Type 0 where
  sonarr radarr : AppKind

pub data SyncLevel : Type 0 where
  disabled add_only full_sync : SyncLevel

-- A failure that SQLite reports: a constraint of the schema, or anything else.
pub data SqlxError : Type 0 where
  unique_violation foreign_key_violation : SqlxError
  other : String → SqlxError

-- Why a stored value is refused: the message, with what it quotes.
pub data Reason : Type 0 where
  unknown_value : String → Reason
  library_message : String → Reason
  out_of_range : Reason

pub data DbError : Type 0 where
  sqlx : SqlxError → DbError
  not_found : String → Text → DbError
  corrupt : String → Reason → DbError

unfoldable pub indexer_kind_as_str : IndexerKind → String
indexer_kind_as_str cardigann = "cardigann"
indexer_kind_as_str newznab = "newznab"
indexer_kind_as_str torznab = "torznab"

unfoldable pub indexer_kind_from_stored : String → Outcome DbError IndexerKind
indexer_kind_from_stored value =
    if str_eq value "cardigann"
    then ok cardigann
    else if str_eq value "newznab"
    then ok newznab
    else if str_eq value "torznab"
    then ok torznab
    else err (corrupt "indexers.kind" (unknown_value value))

unfoldable pub app_kind_as_str : AppKind → String
app_kind_as_str sonarr = "sonarr"
app_kind_as_str radarr = "radarr"

unfoldable pub app_kind_from_stored : String → Outcome DbError AppKind
app_kind_from_stored value =
    if str_eq value "sonarr"
    then ok sonarr
    else if str_eq value "radarr"
    then ok radarr
    else err (corrupt "applications.kind" (unknown_value value))

unfoldable pub sync_level_as_str : SyncLevel → String
sync_level_as_str disabled = "disabled"
sync_level_as_str add_only = "addOnly"
sync_level_as_str full_sync = "fullSync"

unfoldable pub sync_level_from_stored : String → Outcome DbError SyncLevel
sync_level_from_stored value =
    if str_eq value "disabled"
    then ok disabled
    else if str_eq value "addOnly"
    then ok add_only
    else if str_eq value "fullSync"
    then ok full_sync
    else err (corrupt "applications.sync_level" (unknown_value value))

pub indexer_kind_there : (k : IndexerKind) → indexer_kind_from_stored (indexer_kind_as_str k) ≡ ok k
unfolding indexer_kind_as_str indexer_kind_from_stored
indexer_kind_there cardigann = refl
indexer_kind_there newznab = refl
indexer_kind_there torznab = refl

pub app_kind_there : (k : AppKind) → app_kind_from_stored (app_kind_as_str k) ≡ ok k
unfolding app_kind_as_str app_kind_from_stored
app_kind_there sonarr = refl
app_kind_there radarr = refl

pub sync_level_there : (l : SyncLevel) → sync_level_from_stored (sync_level_as_str l) ≡ ok l
unfolding sync_level_as_str sync_level_from_stored
sync_level_there disabled = refl
sync_level_there add_only = refl
sync_level_there full_sync = refl

pub ruleset stored_kinds = (indexer_kind_there, app_kind_there, sync_level_there)

-- A stored indexer kind decodes to `k` exactly when it is the text that `k` is stored as.
pub indexer_kind-stored :
    (value : String) (k : IndexerKind)
    → (indexer_kind_from_stored value ≡ ok k) ↔ (value ≡ indexer_kind_as_str k)
indexer_kind-stored value k = (
  only value k,
  λ e. subst (λ v. indexer_kind_from_stored v ≡ ok k) (sym e) (indexer_kind_there k),
)
  where
    only :
        (value : String) (k : IndexerKind)
        → indexer_kind_from_stored value ≡ ok k
        → value ≡ indexer_kind_as_str k
    only value k h =
        unfold indexer_kind_from_stored indexer_kind_as_str in
        ground (
          arith,
          h,
          str_eq_iff value "cardigann",
          str_eq_iff value "newznab",
          str_eq_iff value "torznab",
        )

-- A stored sync level decodes to `l` exactly when it is the text that `l` is stored as.
pub sync_level-stored :
    (value : String) (l : SyncLevel)
    → (sync_level_from_stored value ≡ ok l) ↔ (value ≡ sync_level_as_str l)
sync_level-stored value l =
    (only value l, λ e. subst (λ v. sync_level_from_stored v ≡ ok l) (sym e) (sync_level_there l))
  where
    only :
        (value : String) (l : SyncLevel)
        → sync_level_from_stored value ≡ ok l
        → value ≡ sync_level_as_str l
    only value l h =
        unfold sync_level_from_stored sync_level_as_str in
        ground (
          arith,
          h,
          str_eq_iff value "disabled",
          str_eq_iff value "addOnly",
          str_eq_iff value "fullSync",
        )
