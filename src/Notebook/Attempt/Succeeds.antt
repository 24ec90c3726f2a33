-- ===== src/Notebook/Attempt/Succeeds.antt =====
-- What an attempt of internal/notebook/commit.go that succeeds, or loses the race, has done.
use mathlib.Core.Path.{subst, sym}
use slivingdoc.Base.{
  ℕ, ◌≡◌, refl, ap, Bool, true, false, Option, none, some, List, [], ◌∷◌, ◌==◌, bytes_eq,
  bytes_beq_iff, Bytes, arith, if◌then◌else◌, Result, ok, err,
}
use slivingdoc.Base.Actions.{after-ok, wrapped, wrapped-ok, checked-ok}
use slivingdoc.Storage.Key.{UuidLibrary}
use slivingdoc.Storage.Manifest.{Oid, Sha256}
use slivingdoc.Storage.Store.{ObjectStore}
use slivingdoc.Storage.Upload.{UploadStore}
use slivingdoc.Storage.Current.{TextLibrary}
use slivingdoc.Notebook.Commit.{LoadMode}
use slivingdoc.Notebook.Publication.{
  Repository, RemoteState, Proposal, ProposalError, build_proposal,
}
use slivingdoc.Notebook.Publish.{PublishError, publish}
use slivingdoc.Notebook.Attempt.Finished.{Tried, Finished, Ready, uploaded-Ready}
use slivingdoc.Notebook.Attempt.{
  Merged, Steps, AttemptError, Summary, remote_baseline, present, asked, proposed, uploaded,
  after_accept, after_publish, published, summarized, unfolded, publish_merged, applied,
  synchronize, leave_conflict, after_merge, attempt_publication,
}

module _ {S D T : Type 0} (steps : Steps S D T) (repo : Repository) (store : ObjectStore S)
    (uploads : UploadStore S) (digest : Bytes → Sha256) (text : TextLibrary)
    (lib : UuidLibrary) where
  module _ (remote : RemoteState) (at : S) (message : Bytes) (time : ℕ) where
    published-Finished :
        (merged : Merged) (stat : T) (p : Proposal) (u v : S) (o : Option (Summary T))
        → ¬ (merged.tree ≡ remote.tree)
        → Ready steps repo store uploads digest text lib remote message time merged.tree p u
        → published steps repo store uploads digest text lib remote stat p u ≡ (ok o, v)
        → Finished steps repo store uploads digest text lib remote at merged message time o
    published-Finished merged stat p u v o differs ready h =
        on_publish (publish store text lib u remote p) refl h
      where
        tried :
            (r : Result PublishError (Unit {0})) (w : S)
            → publish store text lib u remote p ≡ (r, w)
            → Tried steps repo store uploads digest text lib remote merged.tree message time r
        tried r w q = record {
          proposal = p;
          before = ready.before;
          uploaded_in = u;
          after_it = w;
          chosen = ready.chosen;
          uploaded_first = ready.uploaded_first;
          published_then = q;
        }

        on_accept :
            (w : S) (q : publish store text lib u remote p ≡ (ok tt, w)) (a : Option D × S)
            → steps.accept p.baseline w ≡ a
            → after_accept steps repo store uploads digest text lib p stat a ≡ (ok o, v)
            → Finished steps repo store uploads digest text lib remote at merged message time o
        on_accept w q (some d, x) e g = absurd (ground arith)
        on_accept w q (none, x) e g =
            let summary : Summary T = record {
              generation = p.baseline.remote_generation;
              stat = some stat;
            } in
            let same : ◌≡◌ {A = Option (Summary T)} (some summary) o = ground arith in
            subst
              (λ o.
                Finished steps repo store uploads digest text lib remote at merged message time o)
              same
              (Finished.committed (tried (ok tt) w q) summary differs
                (ap (λ (a : Option D × S). a.0) e) refl)

        on_publish :
            (r : Result PublishError (Unit {0}) × S)
            → publish store text lib u remote p ≡ r
            → after_publish steps repo store uploads digest text lib p stat r ≡ (ok o, v)
            → Finished steps repo store uploads digest text lib remote at merged message time o
        on_publish (ok tt, w) q g = on_accept w q (steps.accept p.baseline w) refl g
        on_publish (err PublishError.cas_lost, w) q g =
            let same : ◌≡◌ {A = Option (Summary T)} none o = ground arith in
            subst
              (λ o.
                Finished steps repo store uploads digest text lib remote at merged message time o)
              same (Finished.lost_race (tried (err PublishError.cas_lost) w q) differs)
        on_publish (err e, w) q g = absurd (ground arith)

    proposed-built :
        (tree : Oid) (s u : S) (p : Proposal)
        → proposed steps repo store uploads digest text lib remote tree message time s ≡ (ok p, u)
        → build_proposal repo remote tree message time
            (steps.new_ids s).publication
            (steps.new_ids s).checkpoint
          ≡ ok p
    proposed-built tree s u p h =
        ap (λ (r : Result ProposalError Proposal × S). r.0)
          (wrapped-ok AttemptError.not_proposed
            (
              build_proposal repo remote tree message time (steps.new_ids s).publication
                  (steps.new_ids s).checkpoint,
              s,
            )
            p u h)

    publish_merged-Finished :
        (merged : Merged) (s v : S) (o : Option (Summary T))
        → ¬ (merged.tree ≡ remote.tree)
        → publish_merged steps repo store uploads digest text lib remote merged.tree message time s
          ≡ (ok o, v)
        → Finished steps repo store uploads digest text lib remote at merged message time o
    unfolding publish_merged
    publish_merged-Finished merged s v o differs h =
        let (stat, t, a, h1) =
          after-ok (summarized steps repo store uploads digest text lib remote.tree merged.tree s) _
            h in
        let (u, t1, b, h2) =
          after-ok (unfolded steps repo store uploads digest text lib remote.tree merged.tree t) _
            h1 in
        let (p, t2, c, h3) =
          after-ok
            (proposed steps repo store uploads digest text lib remote merged.tree message time t1) _
            h2 in
        let (q, t3, d, h4) =
          after-ok (uploaded steps repo store uploads digest text lib remote p t2) _ h3 in
        published-Finished merged stat q t3 v o differs
          (uploaded-Ready steps repo store uploads digest text lib remote message time merged.tree
            (steps.new_ids t1) p q t2 t3 (proposed-built merged.tree t1 t2 p c) d)
          h4

    synchronize-Finished :
        (merged : Merged) (v : S) (o : Option (Summary T))
        → merged.tree ≡ remote.tree
        → synchronize steps repo store uploads digest text lib remote at ≡ (ok o, v)
        → Finished steps repo store uploads digest text lib remote at merged message time o
    unfolding synchronize
    synchronize-Finished merged v o same_tree h =
        let (u, t, a, h1) =
          after-ok
            (applied steps repo store uploads digest text lib
              (steps.apply_accept (remote_baseline remote) at))
            _ h in
        let summary : Summary T = record { generation = remote.generation; stat = none } in
        let same : ◌≡◌ {A = Option (Summary T)} (some summary) o = ground arith in
        subst
          (λ o. Finished steps repo store uploads digest text lib remote at merged message time o)
          same
          (Finished.synchronized summary same_tree
            (ap (λ (r : Option D × S). r.0) (checked-ok AttemptError.not_applied _ t u a)) refl)

    after_merge-Finished :
        (merged : Merged) (local_tree : Oid) (v : S) (o : Option (Summary T)) (cs : List Bytes)
        → after_merge steps repo store uploads digest text lib remote local_tree message time merged
            cs at
          ≡ (ok o, v)
        → (cs ≡ [])
          × Finished steps repo store uploads digest text lib remote at merged message time o
    unfolding leave_conflict
    after_merge-Finished merged local_tree v o (c ∷ cs) h =
        let (tree, t, a, h1) =
          after-ok
            (asked steps repo store uploads digest text lib AttemptError.not_materialized
              (steps.materialize_tree merged local_tree) at)
            _ h in
        let (u, t1, b, h2) =
          after-ok
            (applied steps repo store uploads digest text lib
              (steps.apply_conflict (remote_baseline remote) tree t))
            _ h1 in
        absurd (ground arith)
    after_merge-Finished merged local_tree v o [] h =
        (refl, on_tree (merged.tree == remote.tree) refl h)
      where
        on_tree :
            (b : Bool)
            → (merged.tree == remote.tree) ≡ b
            → (if b
                  then synchronize steps repo store uploads digest text lib remote
                  else publish_merged steps repo store uploads digest text lib remote merged.tree
                      message time)
                at
              ≡ (ok o, v)
            → Finished steps repo store uploads digest text lib remote at merged message time o
        on_tree true q g =
            synchronize-Finished merged v o ((bytes_beq_iff merged.tree remote.tree).0 q) g
        on_tree false q g =
            publish_merged-Finished merged at v o
              (λ e. ground (arith, q, (bytes_beq_iff merged.tree remote.tree).1 e)) g

  asked-some :
      {B : Type 0} (e : AttemptError D) (f : S → Option B) (s t : S) (b : B)
      → asked steps repo store uploads digest text lib e f s ≡ (ok b, t)
      → (f s ≡ some b) × (s ≡ t)
  asked-some e f s t b h = on_answer (f s) refl h
    where
      on_answer :
          (o : Option _)
          → f s ≡ o
          → present steps repo store uploads digest text lib e f s o ≡ (ok b, t)
          → (f s ≡ some b) × (s ≡ t)
      on_answer none q g = absurd (ground arith)
      on_answer (some c) q g = (ground (arith, q), ground arith)

  -- An attempt that gives no error had no conflict. Where it gives a result, the merge changes nothing
  -- and the local state was set to the remote, or the pack of the proposal was uploaded, then the
  -- publication was proved, then the local acceptance succeeded. Where it reports a lost race, the
  -- merge changes the remote tree, and the publication of an uploaded proposal lost it. The result
  -- carries the accepted generation.
  pub attempt_publication-Finished :
      (message : Bytes) (base_tree local_tree : Oid) (time : ℕ) (mode : LoadMode) (s v : S)
      (o : Option (Summary T))
      → attempt_publication steps repo store uploads digest text lib message base_tree local_tree
          time mode s
        ≡ (ok o, v)
      → (remote : RemoteState) × (t : S) × (merged : Merged) × (steps.read_remote_mode mode s
          ≡ (ok remote, t))
        × (steps.merge base_tree local_tree remote.tree t ≡ some merged)
        × (merged.conflicts ≡ [])
        × Finished steps repo store uploads digest text lib remote t merged message time o
  unfolding attempt_publication
  attempt_publication-Finished message base_tree local_tree time mode s v o h =
      let (remote, t, a, h1) =
        after-ok (wrapped AttemptError.not_read (steps.read_remote_mode mode s)) _ h in
      let (merged, t1, b, h2) =
        after-ok
          (asked steps repo store uploads digest text lib AttemptError.not_merged
            (steps.merge base_tree local_tree remote.tree) t)
          _ h1 in
      let (answered, same_state) =
        asked-some AttemptError.not_merged (steps.merge base_tree local_tree remote.tree) t t1
          merged b in
      let (clean, finished) =
        after_merge-Finished remote t message time merged local_tree v o merged.conflicts (
          subst
            (λ x.
              after_merge steps repo store uploads digest text lib remote local_tree message time
                merged merged.conflicts x
              ≡ (ok o, v))
            (sym same_state) h2) in
      (remote, t, merged, wrapped-ok AttemptError.not_read _ remote t a, answered, clean, finished)
