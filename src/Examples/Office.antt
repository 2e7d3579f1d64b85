-- ===== src/Examples/Office.antt =====
-- One document, its chunks, and a curator.
use nexus_rag.Base.{String, ◌≡◌, inl, inr, refl, sym, subst, Bool, true, none, some, [], ◌∷◌, In}
use nexus_rag.Document.{Document, Status}
use nexus_rag.Access.Claims.{UserClaims}
use nexus_rag.Vector.Names.{classification_collection_name}
use nexus_rag.Vector.Memory.{Memory, memory, stored_lem}
use nexus_rag.Vector.Store.Carry.{IsHomed}
use nexus_rag.Database.{Database, Corrections}
use nexus_rag.Curation.Http.{Cookies}
use nexus_rag.Curation.World.{World, Moment}
use nexus_rag.Curation.Routes.{Call, Request}
use nexus_rag.Examples.Access.{levels, chunk}
use nexus_rag.Examples.Vector.{cui_name, point, cui_collection}

abbrev pub curator : UserClaims
curator = record {
  sub = "u-2";
  preferred_username = "bob";
  groups = "signal-corps" ∷ [];
  org = some "hq";
  rag_roles =
      "rag-curate:hq" ∷ "rag-clearance:SECRET" ∷ "rag-releasability:FVEY" ∷ "rag-purge" ∷ [];
}

abbrev pub document : Status → Document
document s = record {
  id = 5;
  filename = "radio.pdf";
  uploader_sub = "u-1";
  uploader_username = "alice";
  owner_org = "hq";
  classification = "CUI";
  releasability = "FVEY" ∷ [];
  access_scope = "signal-corps" ∷ [];
  source_originator = "hq";
  doc_type = "manual";
  program_community = none;
  effective_date = none;
  original_object_key = some "objects/5";
  content_sha256 = none;
  last_verified_at = none;
  status = s;
  rejection_reason = none;
  processing_error = none;
  reviewed_by_sub = none;
  reviewed_at = none;
  first_approved_at = none;
  chunk_count = 1;
  queue_published_at = none;
  processing_started_at = none;
  supersedes_document_id = none;
  created_at = 900;
  updated_at = 1000;
}

abbrev pub database : Status → Database
database s = record {
  documents = document s ∷ [];
  purge_requests = [];
  notifications = [];
  audit_log = [];
  classification_levels = levels;
}

abbrev pub chunk_store : Status → Memory
chunk_store s = record {
  names = cui_name ∷ [];
  stored = λ n. record point { payload = record chunk { status = s } } ∷ [];
}

abbrev pub world : Status → World Memory
world s = record { db = database s; chunks = chunk_store s }

abbrev pub moment : Bool → Moment
moment b = record { now = 2000; commits = b; refreshes = true }

abbrev pub narrowed : Corrections
narrowed = record { classification = none; releasability = some ("NONE" ∷ []); access_scope = none }

pub chunk_store-IsHomed : (s : Status) → IsHomed memory (chunk_store s) 5 cui_name
chunk_store-IsHomed s = record {
  prefixed = refl;
  only = λ m p i own. one_name m (stored_lem (chunk_store s) m p i);
}
  where
    one_name : (m : String) → In m (cui_name ∷ []) → m ≡ cui_name
    one_name m (inl e) = e
    one_name m (inr i) = absurd i

pub chunk_store-IsHomed_level :
    (s : Status) → IsHomed memory (chunk_store s) 5 (classification_collection_name "CUI")
chunk_store-IsHomed_level s =
    subst (IsHomed memory (chunk_store s) 5) (sym cui_collection) (chunk_store-IsHomed s)

abbrev no_cookies : Cookies
no_cookies = record { session = none; csrf = none; header = none }

abbrev pub call_of : Request → Call
call_of r = record { moment = moment true; user = curator; cookies = no_cookies; request = r }
