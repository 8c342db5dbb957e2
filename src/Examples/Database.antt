-- ===== src/Examples/Database.antt =====
-- The theorems on the database, at concrete tables.
use oxidarr.Common.{String, ◌≡◌, refl, [], ◌∷◌, codes}
use oxidarr.Common.Int.{pos}
use oxidarr.Common.Outcome.{Outcome, ok}
use oxidarr.Db.Rows.{MappingRow, IndexerRow}
use oxidarr.Db.Conn.{Tables, Conn, statement, start, finish}
use oxidarr.Db.Mappings.{upsert, overwrite, remove_pair}
use oxidarr.Db.Mappings.View.{remote_id, written}
use oxidarr.Db.Mappings.View as View
use oxidarr.Db.Integrity.{IsIntact}
use oxidarr.Db.Integrity as Integrity
use oxidarr.Db.Integrity.Indexers as Indexer_integrity
use oxidarr.Db.Indexers.{has_id, insert_row, update_row, delete_row, insert, encode}
use oxidarr.Db.Indexers as Indexers
use oxidarr.Db.Indexers.Stored as Stored
use oxidarr.Db.Rows.{row_id_to_i32, parse_added}
use oxidarr.Db.Config.{
  api_key, value_of, get, key_or_generate, or_missing, generate_and_persist_api_key, put_if_absent,
  hex,
}
use oxidarr.Examples.Data.{tables, tables-IsIntact, conn, codec, quiet, new_indexer}

abbrev moved : MappingRow
moved = record { app_id = 1; indexer_id = 2; remote_indexer_id = pos 9 }

abbrev value_or : {E A : Type 0} → A → Outcome E A → A
value_or a (ok b) = b
value_or a (Outcome.err e) = a

abbrev upserted : Tables
upserted = record tables {
  mappings = record { app_id = 1; indexer_id = 2; remote_indexer_id = pos 9 } ∷ [];
}

upserts : upsert moved tables ≡ ok (tt, upserted)
unfolding upsert overwrite
upserts = refl

upsert-IsIntact_example : IsIntact upserted
upsert-IsIntact_example = Integrity.upsert-IsIntact moved tables tt upserted tables-IsIntact upserts

remote_id-upsert_example : remote_id upserted.mappings 1 2 ≡ written moved tables.mappings 1 2
remote_id-upsert_example = View.remote_id-upsert moved tables 1 2 upserts

abbrev unmapped : Tables
unmapped = record tables { mappings = [] }

unmaps : remove_pair 1 2 tables ≡ ok (tt, unmapped)
unfolding remove_pair
unmaps = refl

abbrev grown : Tables
grown = (value_or (3, tables) (insert_row new_indexer "{}" "x" tables)).1

inserts : insert_row new_indexer "{}" "x" tables ≡ ok (3, grown)
unfolding insert_row
inserts = refl

abbrev renamed : IndexerRow
renamed = Stored.row_of codec quiet 1 new_indexer 1

abbrev changed : Tables
changed = (value_or (3, tables) (update_row renamed "{}" tables)).1

updates : update_row renamed "{}" tables ≡ ok (1, changed)
unfolding update_row
updates = refl

abbrev shrunk : Tables
shrunk = (value_or (3, tables) (delete_row 2 tables)).1

deletes : delete_row 2 tables ≡ ok (1, shrunk)
unfolding delete_row
deletes = refl

delete_row-IsIntact_example : IsIntact shrunk
delete_row-IsIntact_example =
    Indexer_integrity.delete_row-IsIntact 2 tables 1 shrunk tables-IsIntact deletes

abbrev got : IndexerRow
got = Stored.row_of codec quiet 1 new_indexer 3

abbrev after_insert : Conn
after_insert = (insert codec quiet 1 new_indexer conn).1

inserted : insert codec quiet 1 new_indexer conn ≡ (ok got, after_insert)
unfolding insert encode statement start finish insert_row row_id_to_i32 parse_added
inserted = refl

get-insert_example :
    Stored.IsNew codec quiet 1 new_indexer got
    × ((text : String) × (codec.encode_settings new_indexer.settings ≡ ok text)
        × Stored.ReadAs codec quiet got text (Indexers.get codec quiet 3 after_insert).0)
get-insert_example =
    Stored.get-insert codec quiet 1 new_indexer conn got after_insert tables-IsIntact inserted refl

abbrev with_key : Conn
with_key = (api_key quiet (10 ∷ 255 ∷ []) conn).1

made : api_key quiet (10 ∷ 255 ∷ []) conn ≡ (ok (codes "0aff"), with_key)
unfolding api_key get statement start finish value_of key_or_generate or_missing
    generate_and_persist_api_key put_if_absent hex
made = refl
