-- ===== src/Dce/Immutability.antt =====
-- What never changes in an admitted corpus, and in a withdrawn or superseded version:
-- `DceVersion` of backend/app/modules/dce/domain/dce_version.py.
use smart_ao_v.Base.{◌≡◌, ◌∙◌, refl, List, [], ◌∷◌, arith}
use smart_ao_v.Dce.Version.{
  DceVersion, superseded, replace_admitted_corpus, declare_missing_document,
  register_source_statement, mark_superseded_by, withdraw,
}
use smart_ao_v.Dce.Corpus.{
  Command, replace, declare_missing, register_statement, supersede_by, withdraw_for, step, run,
}

-- What was admitted: the corpus, its documents and where they came from.
pub record SameCorpus (v v' : DceVersion) : Type 0 where
  pub same_hash : v'.corpus_hash ≡ v.corpus_hash
  pub same_documents : v'.documents ≡ v.documents
  pub same_provenance : v'.provenance ≡ v.provenance
  pub same_receipt : v'.received_at ≡ v.received_at
  pub same_owner : (v'.tenant_id ≡ v.tenant_id) × (v'.consultation_id ≡ v.consultation_id)
  pub same_origin : v'.supersedes_version_id ≡ v.supersedes_version_id

SameCorpus-trans : {v v' v'' : DceVersion} → SameCorpus v v' → SameCorpus v' v'' → SameCorpus v v''
SameCorpus-trans s t = ground arith

step-SameCorpus : (c : Command) (v : DceVersion) → SameCorpus v (step c v)
unfolding step replace_admitted_corpus declare_missing_document register_source_statement
    mark_superseded_by withdraw
step-SameCorpus (replace h ds) v = ground arith
step-SameCorpus (declare_missing f r t) v = ground arith
step-SameCorpus (register_statement i d l e p) v = ground arith
step-SameCorpus (supersede_by n) v = ground arith
step-SameCorpus (withdraw_for r t) v = ground arith

-- No sequence of calls, attempts to replace the corpus included, changes a version's hash,
-- documents, provenance, time of receipt, owner or predecessor.
pub run-SameCorpus : (cs : List Command) (v : DceVersion) → SameCorpus v (run cs v)
unfolding run
run-SameCorpus [] v = ground arith
run-SameCorpus (c ∷ cs) v = SameCorpus-trans (step-SameCorpus c v) (run-SameCorpus cs (step c v))

-- What is left of a superseded version: it stays superseded, with its statements and the documents
-- that were declared missing.
abbrev pub Frozen : DceVersion → DceVersion → Type 0
Frozen v v' =
    (v'.lifecycle ≡ superseded)
    × (v'.source_statements ≡ v.source_statements)
    × (v'.missing_documents ≡ v.missing_documents)
    × (v'.integrity ≡ v.integrity)

step-Frozen : (c : Command) (v : DceVersion) → v.lifecycle ≡ superseded → Frozen v (step c v)
unfolding step replace_admitted_corpus declare_missing_document register_source_statement
    mark_superseded_by withdraw
step-Frozen (replace h ds) v w = ground arith
step-Frozen (declare_missing f r t) v w = ground arith
step-Frozen (register_statement i d l e p) v w = ground arith
step-Frozen (supersede_by n) v w = ground arith
step-Frozen (withdraw_for r t) v w = ground arith

-- No sequence of calls changes the lifecycle, the statements, the missing documents or the
-- integrity of a superseded version.
pub run-Frozen :
    (cs : List Command) (v : DceVersion) → v.lifecycle ≡ superseded → Frozen v (run cs v)
unfolding run
run-Frozen [] v w = (w, refl, refl, refl)
run-Frozen (c ∷ cs) v w =
    let (l, s, m, i) = step-Frozen c v w in
    let (l', s', m', i') = run-Frozen cs (step c v) l in (l', s' ∙ s, m' ∙ m, i' ∙ i)
