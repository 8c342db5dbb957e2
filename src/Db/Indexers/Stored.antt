-- ===== src/Db/Indexers/Stored.antt =====
-- `IndexerRepo`: that a row which was inserted is got back.
use oxidarr.Common.{
  ℕ, ◌≡◌, refl, ◌∙◌, sym, ap, String, false, List, [], ◌∷◌, ◌++◌, any, find, arith, ==_refl, none,
  some, subst, ◌⊎◌, inl, inr,
}
use oxidarr.Common.Outcome.{Outcome, ok, err}
use oxidarr.Common.Act.{Yields, Yields-bind, Yields-lift, Yields-pure}
use oxidarr.Common.Json.{Fields}
use oxidarr.Db.Kinds.{DbError, corrupt, library_message, indexer_kind_there}
use oxidarr.Db.Rows.{
  Codec, Instant, StoredIndexer, NewIndexer, IndexerRow, row_to_indexer, row_id_to_i32, parse_added,
  decode,
}
use oxidarr.Db.Conn.{Tables, Conn, Disk, statement, start, finish}
use oxidarr.Db.Statements.{statement-Yields}
use oxidarr.Db.Integrity.{IsIntact}
use oxidarr.Db.Integrity.Indexers as Integrity
use oxidarr.Db.Indexers.{has_id, new_row, insert_row, encode, insert, get, found}

-- The row that an insertion appends, found by the id that it is given.
appended :
    (row : StoredIndexer) (rows : List StoredIndexer)
    → any (has_id row.id) rows ≡ false
    → find (has_id row.id) (rows ++ row ∷ []) ≡ some row
appended row [] h = rw (==_refl row.id) refl
appended row (r ∷ rest) h = ground (arith, h, appended row rest)

grown :
    (new : NewIndexer) (settings added : String) (t : Tables) (id : ℕ) (t' : Tables)
    → insert_row new settings added t ≡ ok (id, t')
    → t'.indexers ≡ t.indexers ++ new_row new settings added id ∷ []
unfolding insert_row
grown new settings added t id t' h = ground (arith, h)

insert_row-found :
    (new : NewIndexer) (settings added : String) (t : Tables) (id : ℕ) (t' : Tables)
    → IsIntact t
    → insert_row new settings added t ≡ ok (id, t')
    → find (has_id id) t'.indexers ≡ some (new_row new settings added id)
insert_row-found new settings added t id t' i h =
    subst (λ rows. find (has_id id) rows ≡ some (new_row new settings added id))
      {x = t.indexers ++ new_row new settings added id ∷ []}
      (sym (grown new settings added t id t' h))
      (appended (new_row new settings added id) t.indexers
        ((Integrity.insert_row-IsIntact new settings added t id t' i h).1))

module _ (codec : Codec) (disk : Disk) where
  encoded :
      (m : Fields) (text : String)
      → encode codec disk m ≡ ok text
      → codec.encode_settings m ≡ ok text
  unfolding encode
  encoded m text h = ground (arith, h)

  parsed :
      (field added : String) (at : Instant)
      → parse_added codec field added ≡ ok at
      → codec.parse_rfc3339 added ≡ ok at
  unfolding parse_added
  parsed field added at h = ground (arith, h)

  row_id_is : (id id' : ℕ) (field : String) → row_id_to_i32 id field ≡ ok id' → id' ≡ id
  unfolding row_id_to_i32
  row_id_is id id' field h = ground (arith, h)

  -- The row of a new indexer with this id.
  abbrev pub row_of : Instant → NewIndexer → ℕ → IndexerRow
  row_of now new id = record {
    id = id;
    added = now;
    name = new.name;
    definition_id = new.definition_id;
    kind = new.kind;
    enabled = new.enabled;
    settings = new.settings;
    priority = new.priority;
  }

  -- The row with what `serde_json` reads from the text of the settings, or its error.
  abbrev pub ReadAs : IndexerRow → String → Outcome DbError IndexerRow → Type 0
  ReadAs row text r =
      ((m : Fields) × (codec.decode_settings text ≡ ok m) × (r ≡ ok (record row { settings = m })))
      ⊎ ((reason : String) × (codec.decode_settings text ≡ err reason)
          × (r ≡ err (corrupt "indexers.settings" (library_message reason))))

  decodes :
      (now at : Instant) (new : NewIndexer) (id : ℕ) (settings : String)
      → codec.parse_rfc3339 (codec.to_rfc3339 now) ≡ ok at
      → row_id_to_i32 id "indexers.id" ≡ ok id
      → ReadAs
          (row_of at new id)
          settings
          (row_to_indexer codec (new_row new settings (codec.to_rfc3339 now) id))
  unfolding row_to_indexer decode parse_added
  decodes now at new id settings p fits = read (codec.decode_settings settings) refl
    where
      read :
          (d : Outcome String Fields)
          → codec.decode_settings settings ≡ d
          → ReadAs
              (row_of at new id)
              settings
              (row_to_indexer codec (new_row new settings (codec.to_rfc3339 now) id))
      read (ok m) e = inl (m, e, rw (fits, p, indexer_kind_there new.kind, e) refl)
      read (err reason) e = inr (reason, e, rw (fits, p, indexer_kind_there new.kind, e) refl)

  -- The values of the new indexer, and the instant as it is read from its own text.
  abbrev pub IsNew : Instant → NewIndexer → IndexerRow → Type 0
  IsNew now new row =
      (row ≡ row_of row.added new row.id)
      × (codec.parse_rfc3339 (codec.to_rfc3339 now) ≡ ok row.added)

  -- A row of the new indexer's values, of which `get` is to read the settings again.
  abbrev Gettable : Instant → NewIndexer → IndexerRow → Conn → Type 0
  Gettable now new row c =
      IsNew now new row
      × ((text : String) × (codec.encode_settings new.settings ≡ ok text)
          × ((stored : StoredIndexer) × (find (has_id row.id) c.tables.indexers ≡ some stored)
              × ReadAs row text (row_to_indexer codec stored)))

  gettable :
      (now at : Instant) (new : NewIndexer) (settings : String) (c1 c2 : Conn) (rowid id : ℕ)
      → IsIntact c1.tables
      → codec.parse_rfc3339 (codec.to_rfc3339 now) ≡ ok at
      → codec.encode_settings new.settings ≡ ok settings
      → insert_row new settings (codec.to_rfc3339 now) c1.tables ≡ ok (rowid, c2.tables)
      → row_id_to_i32 rowid "indexers.id" ≡ ok id
      → Gettable now new (row_of at new id) c2
  gettable now at new settings c1 c2 rowid id i p e inserted fits =
      let same_id : id ≡ rowid = row_id_is rowid id "indexers.id" fits in
      subst (λ n. Gettable now new (row_of at new n) c2) (sym same_id)
        (
          (refl, p),
          (
            settings,
            e,
            (
              new_row new settings (codec.to_rfc3339 now) rowid,
              insert_row-found new settings _ c1.tables rowid c2.tables i inserted,
              decodes now at new rowid settings p (fits ∙ ap ok same_id),
            ),
          ),
        )

  insert-Gettable :
      (now : Instant) (new : NewIndexer) (conn : Conn)
      → IsIntact conn.tables
      → Yields (insert codec disk now new) conn (Gettable now new)
  unfolding insert
  insert-Gettable now new conn i =
      Yields-bind _ _
        (Yields-lift {Q = λ s c. (codec.encode_settings new.settings ≡ ok s) × (c ≡ conn)}
          (encode codec disk new.settings) (λ s e. (encoded new.settings s e, refl)))
        λ settings c1 (e, same).
          Yields-bind _ _
            (statement-Yields disk (insert_row new settings (codec.to_rfc3339 now)) c1)
            λ rowid c2 inserted.
              Yields-bind _ _
                (Yields-lift {Q = λ id c. (row_id_to_i32 rowid "indexers.id" ≡ ok id) × (c ≡ c2)}
                  (row_id_to_i32 rowid "indexers.id") (λ id e. (e, refl)))
                λ id c3 (fits, same3).
                  Yields-bind _ _
                    (Yields-lift
                      {Q = λ at c. (codec.parse_rfc3339 (codec.to_rfc3339 now) ≡ ok at) × (c ≡ c3)}
                      (parse_added codec "indexers.added" (codec.to_rfc3339 now))
                      (λ at e. (parsed "indexers.added" (codec.to_rfc3339 now) at e, refl)))
                    λ at c4 (p, same4). Yields-pure (row_of at new id) (
                      subst (λ c. Gettable now new (row_of at new id) c) (sym (same4 ∙ same3))
                        (gettable now at new settings c1 c2 rowid id
                          (subst (λ c. IsIntact c.tables) (sym same) i) p e inserted fits))

  get_there :
      (row : IndexerRow) (text : String) (c : Conn) (stored : StoredIndexer)
      → disk c.queries ≡ none
      → find (has_id row.id) c.tables.indexers ≡ some stored
      → ReadAs row text (row_to_indexer codec stored)
      → ReadAs row text (get codec disk row.id c).0
  unfolding get found statement start finish
  get_there row text c stored quiet there r = rw (quiet, there) r

  -- In intact tables, an indexer that `insert` returned has the values of the new one, and `get`
  -- of its id, if SQLite runs the query, returns it with the settings that are read from the text
  -- that they were written as, or fails if that text is not read.
  pub get-insert :
      (now : Instant) (new : NewIndexer) (conn : Conn) (row : IndexerRow) (c : Conn)
      → IsIntact conn.tables
      → insert codec disk now new conn ≡ (ok row, c)
      → disk c.queries ≡ none
      → IsNew now new row
        × ((text : String) × (codec.encode_settings new.settings ≡ ok text)
            × ReadAs row text (get codec disk row.id c).0)
  get-insert now new conn row c i e quiet =
      let (same, (text, written, (stored, there, r))) =
        (insert-Gettable now new conn i).at row c e in
      (same, (text, written, get_there row text c stored quiet there r))
