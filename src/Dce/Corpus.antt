-- ===== src/Dce/Corpus.antt =====
-- What holds of an admitted corpus, `DceVersion` of backend/app/modules/dce/domain/dce_version.py,
-- through every sequence of calls.
use smart_ao_v.Base.{
  ℕ, ◌+◌, ◌≡◌, ◌≢◌, refl, Bool, true, false, String, List, [], ◌∷◌, ◌++◌, map, length, length-snoc,
  arith, Option, ◌==◌, any, is_nil, is_unique, contains, strip, lower, lower-lower, ap,
}
use smart_ao_v.Base.Result.{ok}
use smart_ao_v.Dce.Version.{
  DceVersion, DceMethod, DceDocument, SourceStatement, DceLifecycle, DceIntegrity,
  AnalysisReadiness, admitted, superseded, withdrawn, verified, partial_integrity, not_ready,
  review_required, is_sha256, document_ids, register, replace_admitted_corpus,
  declare_missing_document, register_source_statement, mark_superseded_by, withdraw,
  document_missing_declared, version_superseded, version_withdrawn, source_statement_registered,
}

-- The calls of a version, as data.
pub data Command : Type 0 where
  replace : String → List DceDocument → Command
  declare_missing : String → String → String → Command
  register_statement : ℕ → ℕ → String → String → String → Command
  supersede_by : ℕ → Command
  withdraw_for : String → String → Command

unfoldable pub execute : Command → DceMethod (Unit {0})
execute (replace h ds) = replace_admitted_corpus h ds
execute (declare_missing f r s) = declare_missing_document f r s
execute (register_statement i d l e p) = register_source_statement i d l e p
execute (supersede_by n) = mark_superseded_by n
execute (withdraw_for r s) = withdraw r s

unfoldable pub step : Command → DceVersion → DceVersion
unfolding execute
step c v = (execute c v).1

unfoldable pub run : List Command → DceVersion → DceVersion
unfolding step
run [] v = v
run (c ∷ cs) v = run cs (step c v)

abbrev pub Ready : DceLifecycle → AnalysisReadiness → Type 0
Ready admitted a = a ≡ not_ready
Ready superseded a = a ≡ review_required
Ready withdrawn a = a ≡ review_required

abbrev pub Complete : Bool → DceIntegrity → Type 0
Complete true i = i ≡ verified
Complete false i = i ≡ partial_integrity

abbrev pub statement_ids : List SourceStatement → List ℕ
statement_ids = map (λ s. s.source_statement_id)

-- Every statement quotes a document of the corpus.
abbrev pub Anchored : List ℕ → List SourceStatement → Type 0
Anchored ids [] = Unit
Anchored ids (s ∷ ss) = (contains ◌==◌ s.document_id ids ≡ true) × Anchored ids ss

pub record IsSound (v : DceVersion) : Type 0 where
  pub hashed : is_sha256 v.corpus_hash ≡ true
  pub canonical : lower v.corpus_hash ≡ v.corpus_hash
  pub inhabited : is_nil v.documents ≡ false
  pub distinct : is_unique ◌==◌ (document_ids v.documents) ≡ true
  pub anchored : Anchored (document_ids v.documents) v.source_statements
  pub identified : is_unique ◌==◌ (statement_ids v.source_statements) ≡ true
  pub complete : Complete (is_nil v.missing_documents) v.integrity
  pub ready : Ready v.lifecycle v.analysis_readiness
  pub announced : length v.pending_events ≡ v.aggregate_revision + 1

-- A registered version is sound, admitted, at revision 0, with the documents that were given.
pub register-IsSound :
    (id tenant consultation : ℕ) (hash : String) (documents : List DceDocument)
    (provenance : String) (received : ℕ) (supersedes : Option ℕ) (source : Option String)
    {v : DceVersion}
    → register id tenant consultation hash documents provenance received supersedes source ≡ ok v
    → IsSound v
      × (v.lifecycle ≡ admitted)
      × (v.documents ≡ documents)
      × (v.corpus_hash ≡ lower hash)
      × (v.aggregate_revision ≡ 0)
unfolding register
register-IsSound id tenant consultation hash documents provenance received supersedes source h =
    ground (arith, lower-lower hash)

Anchored-snoc :
    (ids : List ℕ) (ss : List SourceStatement) (s : SourceStatement)
    → Anchored ids ss
    → contains ◌==◌ s.document_id ids ≡ true
    → Anchored ids (ss ++ s ∷ [])
Anchored-snoc ids [] s a c = (c, tt)
Anchored-snoc ids (x ∷ ss) s a c = (a.0, Anchored-snoc ids ss s a.1 c)

contains-snoc :
    (x y : ℕ) (xs : List ℕ)
    → contains ◌==◌ x xs ≡ false
    → x ≢ y
    → contains ◌==◌ x (xs ++ y ∷ []) ≡ false
contains-snoc x y [] c n = ground arith
contains-snoc x y (z ∷ xs) c n = ground (arith, contains-snoc x y xs)

statement_ids-snoc :
    (ss : List SourceStatement) (s : SourceStatement)
    → statement_ids (ss ++ s ∷ []) ≡ statement_ids ss ++ s.source_statement_id ∷ []
statement_ids-snoc [] s = refl
statement_ids-snoc (t ∷ ss) s = ap (λ ids. t.source_statement_id ∷ ids) (statement_ids-snoc ss s)

is_unique-snoc :
    (ss : List SourceStatement) (s : SourceStatement)
    → is_unique ◌==◌ (statement_ids ss) ≡ true
    → any (λ t. t.source_statement_id == s.source_statement_id) ss ≡ false
    → is_unique ◌==◌ (statement_ids (ss ++ s ∷ [])) ≡ true
is_unique-snoc [] s u a = refl
is_unique-snoc (t ∷ ss) s u a =
    let ids : statement_ids (ss ++ s ∷ []) ≡ statement_ids ss ++ s.source_statement_id ∷ [] =
      statement_ids-snoc ss s in
    let fresh = contains-snoc t.source_statement_id s.source_statement_id (statement_ids ss) in
    let first : contains ◌==◌ t.source_statement_id (statement_ids (ss ++ s ∷ [])) ≡ false =
      rw ids (fresh (ground arith) (ground arith)) in
    ground (arith, is_unique-snoc ss s)

is_nil-snoc {ℓ} : {A : Type ℓ} (xs : List A) (x : A) → is_nil (xs ++ x ∷ []) ≡ false
is_nil-snoc [] x = refl
is_nil-snoc (y ∷ xs) x = refl

-- The methods, one by one.
declare_missing-IsSound :
    (f r s : String) (v : DceVersion) → IsSound v → IsSound (declare_missing_document f r s v).1
unfolding declare_missing_document
declare_missing-IsSound f r s v h = ground (
  arith,
  length-snoc v.pending_events (document_missing_declared v.id (strip f)),
  is_nil-snoc v.missing_documents
      (record { expected_family = strip f; reason = strip r; source_reference = strip s }),
)

register_statement-IsSound :
    (i d : ℕ) (l e p : String) (v : DceVersion)
    → IsSound v
    → IsSound (register_source_statement i d l e p v).1
unfolding register_source_statement
register_statement-IsSound i d l e p v h =
    let s : SourceStatement = record {
      source_statement_id = i;
      document_id = d;
      locator = strip l;
      excerpt = strip e;
      provenance = strip p;
    } in
    ground (
      arith,
      length-snoc v.pending_events (source_statement_registered v.id i),
      Anchored-snoc (document_ids v.documents) v.source_statements s h.anchored,
      is_unique-snoc v.source_statements s h.identified,
    )

mark_superseded_by-IsSound :
    (n : ℕ) (v : DceVersion) → IsSound v → IsSound (mark_superseded_by n v).1
unfolding mark_superseded_by
mark_superseded_by-IsSound n v h =
    ground (arith, length-snoc v.pending_events (version_superseded v.id n))

withdraw-IsSound : (r s : String) (v : DceVersion) → IsSound v → IsSound (withdraw r s v).1
unfolding withdraw
withdraw-IsSound r s v h = ground (arith, length-snoc v.pending_events (version_withdrawn v.id))

step-IsSound : (c : Command) (v : DceVersion) → IsSound v → IsSound (step c v)
unfolding step replace_admitted_corpus
step-IsSound (replace h ds) v s = s
step-IsSound (declare_missing f r t) v s = declare_missing-IsSound f r t v s
step-IsSound (register_statement i d l e p) v s = register_statement-IsSound i d l e p v s
step-IsSound (supersede_by n) v s = mark_superseded_by-IsSound n v s
step-IsSound (withdraw_for r t) v s = withdraw-IsSound r t v s

-- Every sequence of calls, refused ones included, keeps a sound version sound: a canonical
-- SHA-256, some documents of distinct identifiers, statements of distinct identifiers that cite
-- them, an integrity that shows whether documents are missing, a readiness that fits the
-- lifecycle, and one event more than its revision.
pub version_run-IsSound : (cs : List Command) (v : DceVersion) → IsSound v → IsSound (run cs v)
unfolding run
version_run-IsSound [] v s = s
version_run-IsSound (c ∷ cs) v s = version_run-IsSound cs (step c v) (step-IsSound c v s)
