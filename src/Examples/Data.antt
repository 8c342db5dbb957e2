-- ===== src/Examples/Data.antt =====
-- Concrete libraries, tables and rows for the examples.
use oxidarr.Common.{
  ℕ, zero, suc, refl, String, true, false, none, [], ◌∷◌, codes, Text, arith, str_eq, if◌then◌else◌,
}
use oxidarr.Common.Int.{pos}
use oxidarr.Common.Json.{Fields, end, field, object, int, bool}
use oxidarr.Common.Outcome.{Outcome, ok}
use oxidarr.Db.Kinds.{cardigann, sonarr, SyncLevel}
use oxidarr.Db.Rows.{Codec, NewIndexer, ApplicationRow}
use oxidarr.Db.Conn.{Tables, Conn, Disk}
use oxidarr.Db.Integrity.{IsIntact}
use oxidarr.Definitions.{Files, Store}
use oxidarr.Http.{HttpRequest, HttpResponse, HttpError}
use oxidarr.Model.{Definition}
use oxidarr.Sync.World.{Services, World}

-- Settings are encoded as their first key, which is read as one that holds, and an instant is a
-- text of its length.
abbrev pub unary : ℕ → String
unary zero = String.[]
unary (suc n) = String.◌∷◌ "x" (unary n)

abbrev pub count : String → ℕ
count String.[] = 0
count (String.◌∷◌ c s) = suc (count s)

abbrev pub encode_key : Fields → Outcome String String
encode_key end = ok "{}"
encode_key (field k v rest) = ok k

abbrev pub decode_key : String → Outcome String Fields
decode_key t = ok (if str_eq t "{}" then end else field t (bool true) end)

abbrev pub codec : Codec
codec = record {
  encode_settings = encode_key;
  decode_settings = decode_key;
  to_rfc3339 = unary;
  parse_rfc3339 = λ t. ok (count t);
}

abbrev pub quiet : Disk
quiet query = none

-- A definition with one category, and the files that hold it.
abbrev pub movies : Definition
movies = record {
  id = codes "tracker";
  name = codes "Tracker";
  links = codes "https://tracker.example/" ∷ [];
  categorymappings = record { id = "1"; cat = "Movies/HD"; desc = "HD"; default = true } ∷ [];
  settings = [];
  search = record {
    paths = [];
    path = none;
    inputs = [];
    headers = [];
    rows = record { selector = codes "tr"; after = none };
    fields = [];
    allow_empty_inputs = false;
  };
  login = none;
}

abbrev pub files : Files
files = record { read_to_string = λ tick path. ok path; parse_definition = λ text. ok movies }

abbrev pub store : Store
store = record { dir = codes "/definitions/"; cache = []; reads = [] }

-- An application that answers every request with status 201 and the id 7.
abbrev pub created : HttpRequest → ℕ → Outcome HttpError HttpResponse × ℕ
created req n = (ok (record { status = 201; headers = []; body = []; final_url = req.url }), suc n)

abbrev pub services : Services ℕ
services = record {
  http = created;
  parse_url = ok;
  from_slice = λ bytes. ok (object (field "id" (int (pos 7)) end));
  from_utf8_lossy = λ bytes. bytes;
  disk = quiet;
  codec = codec;
  files = files;
}

-- An enabled Cardigann indexer, and a disabled one that is mapped.
abbrev pub tables : Tables
tables = record {
  indexers =
      record {
        id = 1;
        name = codes "one";
        definition_id = codes "tracker";
        kind = "cardigann";
        enabled = true;
        settings = "{}";
        priority = pos 25;
        added = "x";
      }
      ∷ record {
        id = 2;
        name = codes "two";
        definition_id = codes "tracker";
        kind = "cardigann";
        enabled = false;
        settings = "{}";
        priority = pos 25;
        added = "x";
      }
      ∷ [];
  applications =
      record {
        id = 1;
        name = codes "sonarr";
        kind = "sonarr";
        base_url = codes "http://sonarr/";
        api_key = codes "key";
        sync_level = "fullSync";
        added = "x";
      }
      ∷ [];
  mappings = record { app_id = 1; indexer_id = 2; remote_indexer_id = pos 5 } ∷ [];
  config = [];
  last_indexer = 2;
  last_application = 1;
}

pub tables-IsIntact : IsIntact tables
tables-IsIntact = record {
  indexer_ids = (refl, (refl, tt));
  indexer_bound = (ground arith, (ground arith, tt));
  indexer_names = (refl, (refl, tt));
  application_ids = (refl, tt);
  application_bound = (ground arith, tt);
  application_names = (refl, tt);
  pairs = (refl, tt);
  links = ((refl, refl), tt);
}

abbrev pub conn : Conn
conn = record { tables = tables; queries = 0 }

abbrev pub world : World ℕ
world = record { conn = conn; definitions = store; server = 0; sent = [] }

abbrev pub app_at : SyncLevel → ApplicationRow
app_at level = record {
  id = 1;
  added = 1;
  name = codes "sonarr";
  kind = sonarr;
  base_url = codes "http://sonarr/";
  api_key = codes "key";
  sync_level = level;
}

abbrev pub external_url : Text
external_url = codes "http://prowl/"

abbrev pub new_indexer : NewIndexer
new_indexer = record {
  name = codes "three";
  definition_id = codes "tracker";
  kind = cardigann;
  enabled = true;
  settings = field "freeleech" (bool true) end;
  priority = pos 25;
}
