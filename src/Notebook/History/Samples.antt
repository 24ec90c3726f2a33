-- ===== src/Notebook/History/Samples.antt =====
-- A first publication and a commit on it, of one writer of internal/notebook.
use slivingdoc.Base.{refl, false, inl, none, some, [], ◌∷◌, codes, bytes_beq, contains, lookup}
use slivingdoc.Storage.Key.{key_text, decimal, decimal_from}
use slivingdoc.Storage.Manifest.{
  Manifest, validate_manifest, check_chain, check_checkpoint, check_increments, check_increment,
  check_descriptor_key, binds_same, check_retained,
}
use slivingdoc.Base.{bytes_eq}
use slivingdoc.Storage.Samples.{plain_ids, repeated, sample_manifest}
use slivingdoc.Notebook.Samples.{fixed_repository, sample_pack}
use slivingdoc.Notebook.Publication.{
  RemoteState, Proposal, first_proposal, increment_proposal, accepted_state, obtain, build_first,
  build_increment, build_proposal,
}
use slivingdoc.Notebook.History.{Log, IsEncoded, Step, Reach, Build, no_history}
use slivingdoc.Notebook.History.Sound.{AreNumbered, Reach-AreNumbered}

-- The tag of a manifest is the manifest.
abbrev whole : Manifest → Manifest
whole m = m

abbrev empty_remote : RemoteState
empty_remote = record {
  manifest = sample_manifest;
  etag = [];
  present = false;
  generation = 0;
  head = repeated 20 0;
  tree = repeated 20 0;
}

abbrev first : Proposal
first = first_proposal (codes "p") (codes "a") (repeated 20 7) sample_pack (repeated 20 5)

abbrev after_first : RemoteState
after_first = accepted_state first.manifest [] (repeated 20 5)

abbrev second_commit : Proposal
second_commit =
    increment_proposal after_first (codes "s") (repeated 20 7) sample_pack (repeated 20 6)

abbrev one_log : Log
one_log = record { accepted = first.manifest ∷ []; observed = [] }

abbrev read_log : Log
read_log = record { accepted = first.manifest ∷ []; observed = first.manifest ∷ [] }

abbrev two_log : Log
two_log = record {
  accepted = second_commit.manifest ∷ first.manifest ∷ [];
  observed = first.manifest ∷ [];
}

first_built : Build plain_ids fixed_repository whole 2 empty_remote first
unfolding build_proposal build_first obtain
first_built = record {
  tree = repeated 20 5;
  message = codes "first";
  time = 0;
  id = codes "p";
  checkpoint_id = some (codes "a");
  built = refl;
}

second_built : Build plain_ids fixed_repository whole 2 after_first second_commit
unfolding build_proposal build_increment obtain
second_built = record {
  tree = repeated 20 6;
  message = codes "second";
  time = 1;
  id = codes "s";
  checkpoint_id = none;
  built = refl;
}

first-IsEncoded : IsEncoded plain_ids first.manifest
unfolding validate_manifest check_chain check_checkpoint check_increments check_increment
    check_descriptor_key binds_same check_retained contains lookup bytes_beq key_text decimal
    decimal_from
first-IsEncoded = refl

second-IsEncoded : IsEncoded plain_ids second_commit.manifest
unfolding validate_manifest check_chain check_checkpoint check_increments check_increment
    check_descriptor_key binds_same check_retained contains lookup bytes_beq key_text decimal
    decimal_from
second-IsEncoded = refl

two_reached :
    Reach plain_ids fixed_repository whole 2 (no_history plain_ids fixed_repository whole 2) two_log
unfolding second_built
two_reached =
    Reach.next
      (Reach.next
        (Reach.next Reach.here
          (Step.create_first empty_remote first refl refl first_built first-IsEncoded))
        (Step.observe first.manifest [] refl))
      (Step.commit first.manifest first.manifest [] [] (repeated 20 5) second_commit
        (record { was_read = inl refl; stored_is = refl; same_tag = refl }) second_built
        second-IsEncoded)

Reach-AreNumbered_example :
    AreNumbered plain_ids fixed_repository whole 2 (λ a b p. p) two_log.accepted
Reach-AreNumbered_example =
    Reach-AreNumbered plain_ids fixed_repository whole 2 (λ a b p. p) two_reached
