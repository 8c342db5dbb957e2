-- ===== src/Extraction/Release.antt =====
-- `build_release` and `resolve_url` of crates/oxidarr-cardigann/src/engine.rs, and the release of crates/oxidarr-core/src/release.rs.
use oxidarr.Common.{
  ℕ, not, ◌==◌, Option, none, some, List, [], find, filter, Text, codes, text_eq, if◌then◌else◌,
}
use oxidarr.Common.Outcome.{Outcome, ok, err}
use oxidarr.Common.Numerals.{from_str_radix, u32_max}
use oxidarr.Common.Ordered.{get}
use oxidarr.CategoryMap.{CategoryMap, Entry, to_newznab, sort_unstable, dedup}
use oxidarr.Http.{Url}
use oxidarr.Search.Build.{Urls}
use oxidarr.Template.{is_empty}
use oxidarr.Extraction.{or_empty}
use oxidarr.Extraction.Size.{u64_max, parse_size}

-- With instants `I` and floating-point numbers `N`.
pub record Release (I N : Type 0) : Type 0 where
  pub title : Text
  pub size : Option ℕ
  pub seeders : Option ℕ
  pub leechers : Option ℕ
  pub grabs : Option ℕ
  pub details_url : Option Text
  pub download_url : Option Text
  pub magnet_url : Option Text
  pub info_hash : Option Text
  pub publish_date : Option I
  pub categories : List ℕ
  pub download_volume_factor : N
  pub upload_volume_factor : N
  pub imdb_id : Option Text
  pub tmdb_id : Option ℕ
  pub tvdb_id : Option ℕ
  pub description : Option Text
  pub poster : Option Text
  pub genre : Option Text
  pub files : Option ℕ
  pub minimum_seed_time : Option ℕ
  pub minimum_ratio : Option N

-- What the standard library and `chrono` read: `f32`, the number one, and RFC 3339.
pub record Readers (I N : Type 0) : Type 0 where
  pub parse_f32 : Text → Option N
  pub neutral : N
  pub parse_from_rfc3339 : Text → Option I
  pub to_uppercase : Text → Text

abbrev or_joined : Text → Outcome Text Url → Text
or_joined v (err e) = v
or_joined v (ok url) = url

abbrev or_join : Text → Outcome Text Url → Outcome Text Url → Text
or_join v (ok url) joined = v
or_join v (err e) joined = or_joined v joined

unfoldable pub resolve_url : Urls → Url → Text → Text
resolve_url urls base v = or_join v (urls.parse_url v) (urls.join_url base v)

abbrev or_one : {N : Type 0} → N → Option N → N
or_one one none = one
or_one one (some n) = n

-- `to_newznab` at an id that is a text.
abbrev ids_of : CategoryMap → Option Entry → List ℕ
unfolding to_newznab
ids_of category_map none = []
ids_of category_map (some entry) = to_newznab category_map entry.tracker_id

unfoldable pub row_categories : CategoryMap → Text → List ℕ
unfolding to_newznab sort_unstable dedup
row_categories category_map id = dedup (
    sort_unstable (
      ids_of category_map
        (find (λ entry. text_eq (codes entry.tracker_id) id) category_map.entries)))

module _ {I N : Type 0} (readers : Readers I N) (urls : Urls) (values : List (Text × Text)) where
  abbrev field : Text → Text
  unfolding get
  field key = or_empty (get key values)

  abbrev nonempty : Text → Option Text
  nonempty v = if is_empty v then none else some v

  abbrev link : Url → Text → Option Text
  unfolding resolve_url
  link base v = if is_empty v then none else some (resolve_url urls base v)

  -- A count may have commas.
  abbrev count : Text → Option ℕ
  unfolding from_str_radix
  count v = from_str_radix 10 u32_max (filter (λ c. not (c == 44)) v)

  unfoldable pub build_release : CategoryMap → Url → Release I N
  unfolding get resolve_url from_str_radix parse_size row_categories
  build_release category_map base = record {
    title = field (codes "title");
    size = parse_size readers.to_uppercase (field (codes "size"));
    seeders = count (field (codes "seeders"));
    leechers = count (field (codes "leechers"));
    grabs = count (field (codes "grabs"));
    details_url = link base (field (codes "details"));
    download_url = link base (field (codes "download"));
    magnet_url = nonempty (field (codes "magnet"));
    info_hash = nonempty (field (codes "infohash"));
    imdb_id = nonempty (field (codes "imdbid"));
    publish_date = readers.parse_from_rfc3339 (field (codes "date"));
    tmdb_id = from_str_radix 10 u32_max (field (codes "tmdbid"));
    tvdb_id = from_str_radix 10 u32_max (field (codes "tvdbid"));
    download_volume_factor =
        or_one readers.neutral (readers.parse_f32 (field (codes "downloadvolumefactor")));
    upload_volume_factor =
        or_one readers.neutral (readers.parse_f32 (field (codes "uploadvolumefactor")));
    description = nonempty (field (codes "description"));
    poster = link base (field (codes "poster"));
    genre = nonempty (field (codes "genre"));
    files = count (field (codes "files"));
    minimum_seed_time = from_str_radix 10 u64_max (field (codes "minimumseedtime"));
    minimum_ratio = readers.parse_f32 (field (codes "minimumratio"));
    categories = row_categories category_map (field (codes "category"));
  }
