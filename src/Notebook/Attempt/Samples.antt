-- ===== src/Notebook/Attempt/Samples.antt =====
-- Sample publications of internal/notebook on the in-memory store.
use slivingdoc.Base.{
  ◌≡◌, refl, ap, arith, true, false, inr, Option, none, some, [], ◌∷◌, Bytes, ok, err, codes,
  bytes_beq, lookup,
}
use slivingdoc.Storage.Names.{join_key}
use slivingdoc.Storage.Manifest.{Manifest}
use slivingdoc.Storage.Manifest.Refines.{validate_manifest_iff}
use slivingdoc.Storage.Store.{
  StoreError, Held, ObjectStore, IsConditional, IsShared, IsConditional-IsShared,
}
use slivingdoc.Storage.Fake.{Op, Faults, Memory, held, begin, memory_store}
use slivingdoc.Storage.Fake.Lawful.{IsHonest, memory_store-IsConditional}
use slivingdoc.Storage.Upload.{UploadStore, upload_unique}
use slivingdoc.Storage.Decode.Encode.{encode_manifest, IsTyped}
use slivingdoc.Storage.Current.{encode_current}
use slivingdoc.Storage.Current.Samples.{stack_texts}
use slivingdoc.Storage.Samples.{
  plain_ids, repeated, letter-IsUuidV7, repeated-IsBytes, sample_manifest,
  sample_checkpoint-IsTyped, second-IsTyped, third-IsTyped,
}
use slivingdoc.Notebook.Samples.{
  fixed_repository, fixed_repository-HasPacks, sample_remote, sample_remote-IsAccepted,
  sample_publication-IsNew, sample_proposal, sample_proposal-IsNext,
}
use slivingdoc.Notebook.Samples.{sample_pack}
use slivingdoc.Notebook.Commit.{LoadMode}
use slivingdoc.Notebook.Attempt.{
  Merged, Steps, upload_proposal, publish_merged, attempt_publication, after_publish,
}
use slivingdoc.Notebook.Attempt.Finished.{Chosen, Tried, Finished}
use slivingdoc.Notebook.Attempt.Succeeds.{attempt_publication-Finished}
use slivingdoc.Notebook.Attempt.Accepted.{IsPublished, Tried-IsPublished}
use slivingdoc.Notebook.Publication.Next.{IsNext}
use slivingdoc.Notebook.Publication.{
  RemoteState, Proposal, increment_proposal, build_proposal, build_increment, obtain,
}
use slivingdoc.Notebook.Publication.{publication_in, published, retained_publication}
use slivingdoc.Notebook.Publish.{current_key, publish, publish_bytes}
use slivingdoc.Notebook.Publish.Outcome.{Outcome, publish-Outcome}

-- Faults that never happen.
abbrev quiet : Faults (Unit {0})
quiet = record {
  wait_for_barrier = λ f op key. (none, f);
  consume_fail = λ f op key. (none, f);
  consume_ambiguous = λ f op key. (false, f);
}

quiet-IsHonest : IsHonest quiet
quiet-IsHonest = record {
  barrier_honest = λ f op key p. ground arith;
  failure_honest = λ f op key p. ground arith;
}

abbrev tag_of : Bytes → Bytes
tag_of b = b

abbrev memory : ObjectStore (Memory (Unit {0}))
memory = memory_store quiet tag_of

memory_store-IsConditional_example : IsConditional memory (held quiet tag_of)
memory_store-IsConditional_example = memory_store-IsConditional quiet tag_of quiet-IsHonest

memory-IsConditional : IsConditional memory (held quiet tag_of)
memory-IsConditional = memory_store-IsConditional quiet tag_of quiet-IsHonest

abbrev stored_bytes : Manifest → Bytes
stored_bytes m = stack_texts.print (encode_manifest plain_ids m)

-- A space whose `current` holds the sample manifest, under the tag that was observed.
abbrev sample_space : Memory (Unit {0})
sample_space = record {
  faults = tt;
  prefix = [];
  objects = (current_key, record { contents = stored_bytes sample_manifest; etag = [] }) ∷ [];
  calls = [];
}

abbrev next_space : Memory (Unit {0})
next_space = record {
  faults = tt;
  prefix = [];
  objects =
      (
        current_key,
        record {
          contents = stored_bytes sample_proposal.manifest;
          etag = stored_bytes sample_proposal.manifest;
        },
      )
      ∷ sample_space.objects;
  calls = Op.replace ∷ [];
}

sample_proposal-IsTyped : IsTyped plain_ids sample_proposal.manifest
sample_proposal-IsTyped = record {
  version_is = refl;
  head_is = repeated-IsBytes 20 7 (omega arith);
  checkpoint_is = sample_checkpoint-IsTyped;
  increments_are = (
    second-IsTyped,
    (
      third-IsTyped,
      (
        record {
          publication_is = letter-IsUuidV7 b's' (ground arith);
          parent_is = repeated-IsBytes 20 3 (omega arith);
          head_is = repeated-IsBytes 20 7 (omega arith);
          key_is = record {
            generation_fits = omega arith;
            id_is = letter-IsUuidV7 b's' (ground arith);
          };
          sha256_is = repeated-IsBytes 32 4 (omega arith);
        },
        tt,
      ),
    ),
  );
  retained_are = tt;
}

sample_recorded : publication_in sample_proposal.manifest (codes "s") ≡ true
unfolding publication_in published retained_publication bytes_beq
sample_recorded = refl

proposal_encoded :
    encode_current stack_texts plain_ids sample_proposal.manifest
    ≡ ok (stored_bytes sample_proposal.manifest)
unfolding encode_current
proposal_encoded =
    rw
      ((validate_manifest_iff plain_ids sample_proposal.manifest).1
        sample_proposal-IsNext.sound.valid)
      refl

sample_published :
    publish memory stack_texts plain_ids sample_space sample_remote sample_proposal
    ≡ (ok tt, next_space)
unfolding publish begin lookup join_key bytes_beq
sample_published =
    ap (publish_bytes memory stack_texts plain_ids sample_space sample_remote sample_proposal)
      proposal_encoded

-- The other clients may do anything to an object.
abbrev AnyChange : Option Held → Option Held → Type 0
AnyChange before after = Unit {0}

memory-IsShared : IsShared memory (held quiet tag_of) AnyChange
memory-IsShared =
    IsConditional-IsShared memory (held quiet tag_of) AnyChange (λ o. tt) (λ a b c f g. tt)
      memory-IsConditional

publish-Outcome_example :
    let r = publish memory stack_texts plain_ids sample_space sample_remote sample_proposal in
    Outcome stack_texts plain_ids AnyChange sample_remote sample_proposal
      (held quiet tag_of sample_space current_key)
      (held quiet tag_of r.1 current_key)
      r.0
publish-Outcome_example =
    publish-Outcome stack_texts plain_ids AnyChange memory (held quiet tag_of) memory-IsShared
      sample_remote sample_proposal sample_space

-- Uploads that succeed and keep no pack.
abbrev sample_uploads : UploadStore (Memory (Unit {0}))
sample_uploads = record {
  put_object = λ s key contents meta. (none, s);
  read_object = λ s key. (err StoreError.not_found, s);
}

abbrev sample_digest : Bytes → Bytes
sample_digest b = b

-- A merge that changes the remote tree, without conflict.
abbrev sample_steps : Steps (Memory (Unit {0})) (Unit {0}) (Unit {0})
sample_steps = record {
  read_remote_mode = λ mode s. (ok sample_remote, s);
  merge = λ base local remote s. some (record { tree = repeated 20 5; conflicts = [] });
  materialize_tree = λ merged tree s. none;
  apply_conflict = λ baseline tree s. (none, s);
  apply_accept = λ baseline s. (none, s);
  diff_stat = λ old new s. ok tt;
  reject_new_folded_pairs = λ old new s. none;
  new_ids = λ s. record { publication = some (codes "s"); checkpoint = none; compaction = none };
  accept = λ baseline s. (none, s);
  fail_after_publish = λ p s. s;
  record_tail = λ m s. s;
  accept_compaction = λ p s. s;
  run_checkpoint = λ m s. s;
  checkpoint_packs = 8;
}

abbrev built_proposal : Proposal
built_proposal =
    increment_proposal sample_remote (codes "s") (repeated 20 7) sample_pack (repeated 20 5)

abbrev sample_merged : Merged
sample_merged = record { tree = repeated 20 5; conflicts = [] }

sample_built :
    build_proposal fixed_repository sample_remote
      (repeated 20 5)
      (codes "message")
      0
      (some (codes "s"))
      none
    ≡ ok built_proposal
unfolding build_proposal build_increment obtain
sample_built = refl

built_published :
    publish memory stack_texts plain_ids sample_space sample_remote built_proposal
    ≡ (ok tt, next_space)
unfolding publish begin lookup join_key bytes_beq
built_published =
    ap (publish_bytes memory stack_texts plain_ids sample_space sample_remote built_proposal)
      proposal_encoded

sample_uploaded :
    upload_proposal sample_steps fixed_repository memory sample_uploads sample_digest stack_texts
      plain_ids built_proposal sample_space
    ≡ (ok tt, sample_space)
unfolding upload_proposal upload_unique
sample_uploaded = refl

sample_tried :
    Tried sample_steps fixed_repository memory sample_uploads sample_digest stack_texts plain_ids
      sample_remote
      (repeated 20 5)
      (codes "message")
      0
      (ok tt)
sample_tried = record {
  proposal = built_proposal;
  before = sample_space;
  uploaded_in = sample_space;
  after_it = next_space;
  chosen =
      Chosen.built (record { publication = some (codes "s"); checkpoint = none; compaction = none })
        sample_built;
  uploaded_first = sample_uploaded;
  published_then = built_published;
}

Tried-IsPublished_example :
    IsPublished plain_ids fixed_repository fixed_repository-HasPacks sample_steps memory
      sample_uploads sample_digest stack_texts AnyChange sample_remote built_proposal
      (held quiet tag_of sample_space current_key)
      (held quiet tag_of next_space current_key)
    × IsNext plain_ids 3 (codes "s") built_proposal
unfolding sample_tried
Tried-IsPublished_example =
    Tried-IsPublished plain_ids fixed_repository fixed_repository-HasPacks sample_steps memory
      sample_uploads sample_digest stack_texts (held quiet tag_of) AnyChange sample_remote
      (repeated 20 5) (codes "message") 0 sample_tried memory-IsShared
      (inr (sample_remote-IsAccepted, sample_publication-IsNew))

sample_attempt :
    attempt_publication sample_steps fixed_repository memory sample_uploads sample_digest
      stack_texts plain_ids
      (codes "message")
      (repeated 20 8)
      (repeated 20 5)
      0
      LoadMode.load_reusing
      sample_space
    ≡ (ok (some (record { generation = 4; stat = some tt })), next_space)
unfolding attempt_publication publish_merged upload_proposal upload_unique build_proposal
    build_increment obtain bytes_beq
sample_attempt =
    ap
      (after_publish sample_steps fixed_repository memory sample_uploads sample_digest stack_texts
        plain_ids built_proposal tt)
      built_published

attempt_publication-Finished_example :
    (remote : RemoteState) × (t : Memory (Unit {0})) × (merged : Merged)
    × (sample_steps.read_remote_mode LoadMode.load_reusing sample_space ≡ (ok remote, t))
    × (sample_steps.merge (repeated 20 8) (repeated 20 5) remote.tree t ≡ some merged)
    × (merged.conflicts ≡ [])
    × Finished sample_steps fixed_repository memory sample_uploads sample_digest stack_texts
        plain_ids remote t merged
        (codes "message")
        0
        (some (record { generation = 4; stat = some tt }))
attempt_publication-Finished_example =
    attempt_publication-Finished sample_steps fixed_repository memory sample_uploads sample_digest
      stack_texts plain_ids (codes "message") (repeated 20 8) (repeated 20 5) 0
      LoadMode.load_reusing sample_space next_space
      (some (record { generation = 4; stat = some tt })) sample_attempt
