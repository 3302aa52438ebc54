-- ===== src/Dce/Version.antt =====
-- The DceVersion aggregate: backend/app/modules/dce/domain/dce_version.py, with the error classes
-- of errors.py. Methods return the object as the call leaves it, also after a raise.
use Prim.Native.Char.{code}
use smart_ao_v.Base.{
  ℕ, ◌+◌, String, Bool, true, false, not, ◌&&◌, ◌||◌, Option, List, [], ◌∷◌, ◌++◌, map, ◌==◌, leb,
  any, is_nil, is_unique, contains, is_blank, is_some, strip, strip_or_empty, strip_or_none,
  text_length, is_empty, lower, if◌then◌else◌,
}
use smart_ao_v.Base.Result.{Result, ok, err}
use smart_ao_v.Base.Method.{Method, ◌>>=◌, ◌>>◌, raise_if, gets, modify}

pub data DceError : Type 0 where
  document_original_immutable dce_version_unusable source_location_required : DceError

pub data DceLifecycle : Type 0 where
  admitted superseded withdrawn : DceLifecycle

pub data DceIntegrity : Type 0 where
  verified partial_integrity unusable : DceIntegrity

pub data ClassificationReadiness : Type 0 where
  unclassified partially_classified classified : ClassificationReadiness

pub data AnalysisReadiness : Type 0 where
  not_ready ready_for_analysis review_required : AnalysisReadiness

-- `character in "0123456789abcdef"`
unfoldable pub is_hex : ℕ → Bool
is_hex c = leb b'0' c && leb c b'9' || leb b'a' c && leb c b'f'

abbrev pub all_hex : String → Bool
all_hex String.[] = true
all_hex (String.◌∷◌ c s) = is_hex (code c) && all_hex s

-- `_is_sha256`. `lower` folds the ASCII letters: no other character becomes a hexadecimal digit.
unfoldable pub is_sha256 : String → Bool
unfolding is_hex
is_sha256 s = text_length s == 64 && all_hex (lower s)

pub record DceDocument : Type 0 where
  pub document_id : ℕ
  pub original_filename : String
  pub sha256 : String
  pub media_type : String
  pub size_bytes : ℕ

-- The constructor, with `__post_init__`. A size below 1 is refused; the model has none below 0.
unfoldable pub make_document : ℕ → String → String → String → ℕ → Result DceError DceDocument
make_document id filename sha media size =
    if is_blank filename || is_blank media || size == 0
    then err document_original_immutable
    else if not (is_sha256 sha)
    then err document_original_immutable
    else ok (record {
      document_id = id;
      original_filename = filename;
      sha256 = sha;
      media_type = media;
      size_bytes = size;
    })

pub record MissingDocument : Type 0 where
  pub expected_family : String
  pub reason : String
  pub source_reference : String

pub record SourceStatement : Type 0 where
  pub source_statement_id : ℕ
  pub document_id : ℕ
  pub locator : String
  pub excerpt : String
  pub provenance : String

pub data DceEvent : Type 0 where
  version_registered : ℕ → ℕ → ℕ → String → DceEvent
  document_missing_declared : ℕ → String → DceEvent
  version_superseded : ℕ → ℕ → DceEvent
  version_withdrawn : ℕ → DceEvent
  source_statement_registered : ℕ → ℕ → DceEvent

pub record DceVersion : Type 0 where
  pub id : ℕ
  pub tenant_id : ℕ
  pub consultation_id : ℕ
  pub corpus_hash : String
  pub documents : List DceDocument
  pub provenance : String
  pub received_at : ℕ
  pub supersedes_version_id : Option ℕ
  pub supersession_source : Option String
  pub lifecycle : DceLifecycle
  pub integrity : DceIntegrity
  pub classification_readiness : ClassificationReadiness
  pub analysis_readiness : AnalysisReadiness
  pub missing_documents : List MissingDocument
  pub source_statements : List SourceStatement
  pub aggregate_revision : ℕ
  pub pending_events : List DceEvent

abbrev pub document_ids : List DceDocument → List ℕ
document_ids = map (λ d. d.document_id)

-- `DceVersion.register`
unfoldable pub register :
    ℕ
    → ℕ
    → ℕ
    → String
    → List DceDocument
    → String
    → ℕ
    → Option ℕ
    → Option String
    → Result DceError DceVersion
register id tenant consultation hash documents provenance received supersedes source =
    if not (is_sha256 (lower hash))
    then err document_original_immutable
    else if is_nil documents
    then err document_original_immutable
    else if is_blank provenance
    then err source_location_required
    else if is_some supersedes && is_empty (strip_or_empty source)
    then err source_location_required
    else if not (is_unique ◌==◌ (document_ids documents))
    then err document_original_immutable
    else ok (record {
      id = id;
      tenant_id = tenant;
      consultation_id = consultation;
      corpus_hash = lower hash;
      documents = documents;
      provenance = strip provenance;
      received_at = received;
      supersedes_version_id = supersedes;
      supersession_source = strip_or_none source;
      lifecycle = admitted;
      integrity = verified;
      classification_readiness = unclassified;
      analysis_readiness = not_ready;
      missing_documents = [];
      source_statements = [];
      aggregate_revision = 0;
      pending_events = version_registered id tenant consultation (lower hash) ∷ [];
    })

abbrev pub DceMethod : Type 0 → Type 0
DceMethod A = Method DceError DceVersion A

abbrev pub is_admitted : DceLifecycle → Bool
is_admitted admitted = true
is_admitted _ = false

abbrev pub is_withdrawn : DceLifecycle → Bool
is_withdrawn withdrawn = true
is_withdrawn _ = false

abbrev pub is_unusable : DceIntegrity → Bool
is_unusable unusable = true
is_unusable _ = false

-- `_ensure_admitted_and_usable`
unfoldable pub ensure_admitted_and_usable : DceMethod (Unit {0})
ensure_admitted_and_usable = do
  v ← gets (λ v. v)
  raise_if (is_withdrawn v.lifecycle || is_unusable v.integrity) dce_version_unusable
  raise_if (not (is_admitted v.lifecycle)) dce_version_unusable

abbrev pub increment_revision : DceVersion → DceVersion
increment_revision v = record v { aggregate_revision = v.aggregate_revision + 1 }

abbrev pub record_event : DceEvent → DceVersion → DceVersion
record_event e v = record v { pending_events = v.pending_events ++ e ∷ [] }

-- A replacement of the corpus is refused whatever it holds.
unfoldable pub replace_admitted_corpus : String → List DceDocument → DceMethod (Unit {0})
replace_admitted_corpus hash documents v = (err document_original_immutable, v)

unfoldable pub declare_missing_document : String → String → String → DceMethod (Unit {0})
unfolding ensure_admitted_and_usable
declare_missing_document family reason source = do
  ensure_admitted_and_usable
  raise_if (is_blank family || is_blank reason || is_blank source) source_location_required
  let missing : MissingDocument = record {
    expected_family = strip family;
    reason = strip reason;
    source_reference = strip source;
  }
  modify (λ v. record v { missing_documents = v.missing_documents ++ missing ∷ [] })
  modify (λ v. record v { integrity = partial_integrity })
  modify increment_revision
  modify (λ v. record_event (document_missing_declared v.id missing.expected_family) v)

unfoldable pub register_source_statement : ℕ → ℕ → String → String → String → DceMethod (Unit {0})
unfolding ensure_admitted_and_usable
register_source_statement id document locator excerpt provenance = do
  ensure_admitted_and_usable
  v ← gets (λ v. v)
  raise_if (not (contains ◌==◌ document (document_ids v.documents))) source_location_required
  raise_if (is_blank locator || is_blank excerpt || is_blank provenance) source_location_required
  raise_if (any (λ s. s.source_statement_id == id) v.source_statements) source_location_required
  let statement : SourceStatement = record {
    source_statement_id = id;
    document_id = document;
    locator = strip locator;
    excerpt = strip excerpt;
    provenance = strip provenance;
  }
  modify (λ v. record v { source_statements = v.source_statements ++ statement ∷ [] })
  modify increment_revision
  modify (λ v. record_event (source_statement_registered v.id id) v)

unfoldable pub mark_superseded_by : ℕ → DceMethod (Unit {0})
mark_superseded_by successor = do
  v ← gets (λ v. v)
  raise_if (is_withdrawn v.lifecycle) dce_version_unusable
  raise_if (successor == v.id) document_original_immutable
  modify (λ v. record v { lifecycle = superseded; analysis_readiness = review_required })
  modify increment_revision
  modify (λ v. record_event (version_superseded v.id successor) v)

unfoldable pub withdraw : String → String → DceMethod (Unit {0})
withdraw reason source = do
  v ← gets (λ v. v)
  raise_if (not (is_admitted v.lifecycle)) dce_version_unusable
  raise_if (is_blank reason || is_blank source) source_location_required
  modify (λ v. record v { lifecycle = withdrawn; analysis_readiness = review_required })
  modify increment_revision
  modify (λ v. record_event (version_withdrawn v.id) v)
