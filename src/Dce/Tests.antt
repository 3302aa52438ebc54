-- ===== src/Dce/Tests.antt =====
-- A version with two documents and a consultation with a lot, both of tenant 7, and the theorems at
-- them. Texts are folded by `lower`.
use smart_ao_v.Base.{◌≡◌, refl, String, List, [], ◌∷◌, some, none, lower, strip, words, join_words}
use smart_ao_v.Base.Result.{ok, err}
use smart_ao_v.Dce.Version.{
  DceVersion, DceDocument, admitted, superseded, withdrawn, make_document,
  document_original_immutable, source_location_required, is_sha256, register,
  register_source_statement, verified, unclassified, not_ready, version_registered,
}
use smart_ao_v.Dce.Corpus.{
  Command, replace, declare_missing, register_statement, supersede_by, withdraw_for, run, IsSound,
  register-IsSound, version_run-IsSound,
}
use smart_ao_v.Dce.Consultation
use smart_ao_v.Dce.Consultation.{Consultation, BuyerIdentity}
use smart_ao_v.Dce.Identity
use smart_ao_v.Dce.Durability

abbrev digest : String
digest = "0123456789abcdef0123456789abcdef0123456789ABCDEF0123456789ABCDEF"

abbrev rules : DceDocument
rules = record {
  document_id = 1;
  original_filename = "RC.pdf";
  sha256 = digest;
  media_type = "application/pdf";
  size_bytes = 900;
}

rules_made : make_document 1 "RC.pdf" digest "application/pdf" 900 ≡ ok rules
unfolding make_document is_sha256 lower strip
rules_made = refl

empty_file : make_document 1 "RC.pdf" digest "application/pdf" 0 ≡ err document_original_immutable
unfolding make_document strip
empty_file = refl

abbrev corpus : List DceDocument
corpus = rules ∷ record rules { document_id = 2; original_filename = "CCTP.pdf" } ∷ []

abbrev version : DceVersion
version = record {
  id = 4;
  tenant_id = 7;
  consultation_id = 40;
  corpus_hash = "0123456789abcdef0123456789abcdef0123456789abcdef0123456789abcdef";
  documents = corpus;
  provenance = "portal";
  received_at = 1000;
  supersedes_version_id = none;
  supersession_source = none;
  lifecycle = admitted;
  integrity = verified;
  classification_readiness = unclassified;
  analysis_readiness = not_ready;
  missing_documents = [];
  source_statements = [];
  aggregate_revision = 0;
  pending_events =
      version_registered 4 7 40 "0123456789abcdef0123456789abcdef0123456789abcdef0123456789abcdef"
      ∷ [];
}

registered : register 4 7 40 digest corpus " portal" 1000 none none ≡ ok version
unfolding register is_sha256 lower strip
registered = refl

registered_twice :
    register 4 7 40 digest (rules ∷ rules ∷ []) "portal" 1000 none none
    ≡ err document_original_immutable
unfolding register is_sha256 lower strip
registered_twice = refl

unknown_document :
    (register_source_statement 8 3 "p. 2" "art. 4" "RC" version).0 ≡ err source_location_required
unfolding register_source_statement
unknown_document = refl

abbrev commands : List Command
commands =
    register_statement 8 1 "p. 2" "art. 4" "RC"
    ∷ register_statement 8 2 "p. 3" "art. 5" "CCTP"
    ∷ declare_missing "DPGF" "absent" "RC p. 1"
    ∷ replace digest []
    ∷ supersede_by 5
    ∷ withdraw_for "cancelled" "portal"
    ∷ []

version_run-IsSound_example : IsSound (run commands version)
version_run-IsSound_example =
    version_run-IsSound commands version
      (register-IsSound 4 7 40 digest corpus " portal" 1000 none none registered).0

abbrev gone : DceVersion
gone = record version { lifecycle = withdrawn }

abbrev replaced : DceVersion
replaced = record version { lifecycle = superseded }

abbrev town : BuyerIdentity
town = record { legal_name = "Town of A"; normalized_identifier = some " siret 1 " }

abbrev works : Consultation
works = record {
  id = 40;
  tenant_id = 7;
  buyer = town;
  external_reference = some "2026  12";
  subject = "Works";
  initial_source = "";
  lifecycle = Consultation.opened;
  freshness = Consultation.unknown;
  lots = [];
  tranches = [];
  aggregate_revision = 0;
  pending_events = Consultation.consultation_created 40 7 ∷ [];
}

works_created : Consultation.create lower 40 7 town (some " 2026  12") "Works" " " ≡ ok works
unfolding Consultation.create Consultation.validate_identity lower strip
works_created = refl

works_identity :
    Consultation.functional_identity lower works
    ≡ Consultation.buyer_reference 7 "siret 1" "2026 12"
unfolding Consultation.functional_identity Consultation.normalized_key
    Consultation.normalize_reference lower strip words join_words
works_identity = refl

abbrev lots : List Identity.Command
lots =
    Identity.add_lot "A" "Roof" none
    ∷ Identity.add_lot " a" "Walls" none
    ∷ Identity.add_tranche "T1" "firm" none
    ∷ Identity.shut "late" "portal"
    ∷ []

consultation_run-IsSound_example : Identity.IsSound lower (Identity.run lower lots works)
consultation_run-IsSound_example =
    Identity.consultation_run-IsSound lower lots works
      (Durability.consultation_create-IsSound lower lower 40 7 town (some " 2026  12") "Works" " "
        works_created).0

abbrev shut_works : Consultation
shut_works = record works { lifecycle = Consultation.closed }
