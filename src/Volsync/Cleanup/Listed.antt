-- ===== src/Volsync/Cleanup/Listed.antt =====
-- What the operations by label have done to a lawful cluster when they return normally.
use mathlib.Core.Path.{subst}
use mock_storage_operator.Prelude.{
  ◌≡◌, refl, ap, ◌∙◌, true, String, Option, some, List, [], ◌∷◌, Bool-cases, inl, inr, arith,
}
use mock_storage_operator.Exec.{Reply, value, error, is_not_found}
use mock_storage_operator.Exec.Ensures.{
  Ensures, Ensures-pure, Ensures-fail, Ensures-if, Ensures-weaken, Ensures-enclosing, Ensures-bind,
}
use mock_storage_operator.Exec.Loops.{All, IsStep, for_each-All}
use mock_storage_operator.Objects.{Key, key_of, ObjectMeta, Rs, Rd}
use mock_storage_operator.Client.{Client}
use mock_storage_operator.Client.Laws.{
  Cluster, IsLawful, key_eq, key_eq_sound, put, Deleted, deleted_rs, deleted_rd,
}
use mock_storage_operator.Client.Listing.{IsListing, lists, matches}
use mock_storage_operator.Volsync.{VsHandler, owned_in_namespace}
use mock_storage_operator.Volsync.Claims.Effects.{key_eq_refl}
use mock_storage_operator.Volsync.Cleanup.{
  gone_or_fail, delete_listed_rs, delete_rs_by_label, delete_listed_rd, delete_rd_by_label,
}
use mock_storage_operator.Volsync.Cleanup.Effects.{
  RsGoing, RdGoing, deleted_rs-Going, deleted_rd-Going,
}

-- what holds of every item's key holds of every key that is listed
pub All-lists :
    {A : Type 0} (meta : A → ObjectMeta) (P : Key → Type 0) (items : List A) (k : Key)
    → All (λ a. P (key_of (meta a))) items
    → lists meta k items ≡ true
    → P k
All-lists meta P [] k all e = ground (arith, e)
All-lists meta P (a ∷ items) k (first, rest) e = elim (Bool-cases (key_eq (key_of (meta a)) k)) [
  | inl same ↦ subst P (key_eq_sound (key_of (meta a)) k same) first
  | inr other ↦ All-lists meta P items k rest (rw other at e)
]

-- sources that are going stay so, and nothing else changes
pub record SourcesStep (before after : Cluster) : Type 0 where
  pub claims : after.pvc ≡ before.pvc
  pub volumes : after.pv ≡ before.pv
  pub destinations : after.rd ≡ before.rd
  pub sources : (k : Key) → RsGoing (before.rs k) → RsGoing (after.rs k)

pub SourcesStep-same : {before after : Cluster} → after ≡ before → SourcesStep before after
SourcesStep-same {before} {after} e = record {
  claims = ap (λ (c : Cluster). c.pvc) e;
  volumes = ap (λ (c : Cluster). c.pv) e;
  destinations = ap (λ (c : Cluster). c.rd) e;
  sources = λ k h. rw (ap (λ (c : Cluster). c.rs k) e) h;
}

pub SourcesStep-then : {a b c : Cluster} → SourcesStep a b → SourcesStep b c → SourcesStep a c
SourcesStep-then first second = record {
  claims = second.claims ∙ first.claims;
  volumes = second.volumes ∙ first.volumes;
  destinations = second.destinations ∙ first.destinations;
  sources = λ k h. second.sources k (first.sources k h);
}

-- destinations that are going stay so, and nothing else changes
pub record DestinationsStep (before after : Cluster) : Type 0 where
  pub claims : after.pvc ≡ before.pvc
  pub volumes : after.pv ≡ before.pv
  pub sources : after.rs ≡ before.rs
  pub destinations : (k : Key) → RdGoing (before.rd k) → RdGoing (after.rd k)

pub DestinationsStep-same :
    {before after : Cluster} → after ≡ before → DestinationsStep before after
DestinationsStep-same {before} {after} e = record {
  claims = ap (λ (c : Cluster). c.pvc) e;
  volumes = ap (λ (c : Cluster). c.pv) e;
  sources = ap (λ (c : Cluster). c.rs) e;
  destinations = λ k h. rw (ap (λ (c : Cluster). c.rd k) e) h;
}

pub DestinationsStep-then :
    {a b c : Cluster} → DestinationsStep a b → DestinationsStep b c → DestinationsStep a c
DestinationsStep-then first second = record {
  claims = second.claims ∙ first.claims;
  volumes = second.volumes ∙ first.volumes;
  sources = second.sources ∙ first.sources;
  destinations = λ k h. second.destinations k (first.destinations k h);
}

put-RsGoing :
    (k j : Key) (o : Option Rs) (f : Key → Option Rs)
    → RsGoing o
    → RsGoing (f j)
    → RsGoing (put k o f j)
put-RsGoing k j o f new old = elim (Bool-cases (key_eq k j)) [
  | inl same ↦ rw same new
  | inr other ↦ rw other old
]

put-RdGoing :
    (k j : Key) (o : Option Rd) (f : Key → Option Rd)
    → RdGoing o
    → RdGoing (f j)
    → RdGoing (put k o f j)
put-RdGoing k j o f new old = elim (Bool-cases (key_eq k j)) [
  | inl same ↦ rw same new
  | inr other ↦ rw other old
]

module _ (C : Client) (L : IsLawful C) where
  abbrev SourceDone : Rs → C.World → Type 0
  SourceDone rs w = RsGoing ((L.view w).rs (key_of rs.meta))

  abbrev DestinationDone : Rd → C.World → Type 0
  DestinationDone rd w = RdGoing ((L.view w).rd (key_of rd.meta))

  sources-IsStep : IsStep SourceDone (λ w w'. SourcesStep (L.view w) (L.view w'))
  sources-IsStep = record {
    none_done = λ w. SourcesStep-same refl;
    one_after_another = λ a b c first second. SourcesStep-then first second;
    stays_done = λ rs a b step h. step.sources (key_of rs.meta) h;
  }

  destinations-IsStep : IsStep DestinationDone (λ w w'. DestinationsStep (L.view w) (L.view w'))
  destinations-IsStep = record {
    none_done = λ w. DestinationsStep-same refl;
    one_after_another = λ a b c first second. DestinationsStep-then first second;
    stays_done = λ rd a b step h. step.destinations (key_of rd.meta) h;
  }

  rs_gone_or_fail :
      (text : String) (rs : Rs) (before : Cluster) (r : Reply (Unit {0})) (w : C.World)
      → Deleted
          (before.rs (key_of rs.meta))
          before
          (λ t. record before {
            rs = put (key_of rs.meta) (deleted_rs t (before.rs (key_of rs.meta))) before.rs;
          })
          r
          (L.view w)
      → Ensures
          (gone_or_fail C text r)
          w
          (λ _ w'. SourceDone rs w' × SourcesStep before (L.view w'))
  unfolding gone_or_fail
  rs_gone_or_fail text rs before (value _) w (t, e) =
      let going = deleted_rs-Going t (before.rs (key_of rs.meta)) in
      Ensures-pure tt (
        rw (ap (λ (c : Cluster). c.rs (key_of rs.meta)) e)
            (rw (key_eq_refl (key_of rs.meta)) going),
        record {
          claims = ap (λ (c : Cluster). c.pvc) e;
          volumes = ap (λ (c : Cluster). c.pv) e;
          sources = λ k h.
              rw (ap (λ (c : Cluster). c.rs k) e)
                (put-RsGoing (key_of rs.meta) k _ before.rs going h);
          destinations = ap (λ (c : Cluster). c.rd) e;
        },
      )
  rs_gone_or_fail text rs before (error x) w gone =
      Ensures-if (is_not_found x) _ _
        (λ missing. Ensures-pure tt (
          rw (ap (λ (c : Cluster). c.rs (key_of rs.meta)) (gone missing).0 ∙ (gone missing).1) tt,
          SourcesStep-same (gone missing).0,
        ))
        (λ _. Ensures-fail _)

  rd_gone_or_fail :
      (text : String) (rd : Rd) (before : Cluster) (r : Reply (Unit {0})) (w : C.World)
      → Deleted
          (before.rd (key_of rd.meta))
          before
          (λ t. record before {
            rd = put (key_of rd.meta) (deleted_rd t (before.rd (key_of rd.meta))) before.rd;
          })
          r
          (L.view w)
      → Ensures
          (gone_or_fail C text r)
          w
          (λ _ w'. DestinationDone rd w' × DestinationsStep before (L.view w'))
  unfolding gone_or_fail
  rd_gone_or_fail text rd before (value _) w (t, e) =
      let going = deleted_rd-Going t (before.rd (key_of rd.meta)) in
      Ensures-pure tt (
        rw (ap (λ (c : Cluster). c.rd (key_of rd.meta)) e)
            (rw (key_eq_refl (key_of rd.meta)) going),
        record {
          claims = ap (λ (c : Cluster). c.pvc) e;
          volumes = ap (λ (c : Cluster). c.pv) e;
          sources = ap (λ (c : Cluster). c.rs) e;
          destinations = λ k h.
              rw (ap (λ (c : Cluster). c.rd k) e)
                (put-RdGoing (key_of rd.meta) k _ before.rd going h);
        },
      )
  rd_gone_or_fail text rd before (error x) w gone =
      Ensures-if (is_not_found x) _ _
        (λ missing. Ensures-pure tt (
          rw (ap (λ (c : Cluster). c.rd (key_of rd.meta)) (gone missing).0 ∙ (gone missing).1) tt,
          DestinationsStep-same (gone missing).0,
        ))
        (λ _. Ensures-fail _)

  delete_listed_rs-Ensures :
      (rs : Rs) (w : C.World)
      → Ensures
          (delete_listed_rs C rs)
          w
          (λ _ w'. SourceDone rs w' × SourcesStep (L.view w) (L.view w'))
  unfolding delete_listed_rs
  delete_listed_rs-Ensures rs w =
      Ensures-bind (L.delete_rs (key_of rs.meta) w)
        (λ r w' deleted. rs_gone_or_fail _ rs (L.view w) r w' deleted)

  delete_listed_rd-Ensures :
      (rd : Rd) (w : C.World)
      → Ensures
          (delete_listed_rd C rd)
          w
          (λ _ w'. DestinationDone rd w' × DestinationsStep (L.view w) (L.view w'))
  unfolding delete_listed_rd
  delete_listed_rd-Ensures rd w =
      Ensures-bind (L.delete_rd (key_of rd.meta) w)
        (λ r w' deleted. rd_gone_or_fail _ rd (L.view w) r w' deleted)

module _ (C : Client) (L : IsLawful C) (I : IsListing C L) (v : VsHandler) where
  -- the owner's sources are gone or going
  pub record SourcesCleared (before after : Cluster) : Type 0 where
    pub cleared :
        (k : Key) (r : Rs)
        → before.rs k ≡ some r
        → matches (owned_in_namespace v) r.meta ≡ true
        → RsGoing (after.rs k)
    pub step : SourcesStep before after

  -- the owner's destinations are gone or going
  pub record DestinationsCleared (before after : Cluster) : Type 0 where
    pub cleared :
        (k : Key) (r : Rd)
        → before.rd k ≡ some r
        → matches (owned_in_namespace v) r.meta ≡ true
        → RdGoing (after.rd k)
    pub step : DestinationsStep before after

  pub delete_rs_by_label-Ensures :
      (w : C.World)
      → Ensures (delete_rs_by_label C v) w (λ _ w'. SourcesCleared (L.view w) (L.view w'))
  unfolding delete_rs_by_label
  delete_rs_by_label-Ensures w =
      Ensures-bind (Ensures-enclosing _ _ (I.list_rss (owned_in_namespace v) w refl))
        λ items w1 listed.
          Ensures-weaken
            (for_each-All (sources-IsStep C L) (delete_listed_rs C) (delete_listed_rs-Ensures C L)
              items w1)
            λ _ w' (all, step). record {
              cleared = λ k r stored owned.
                  All-lists (λ (x : Rs). x.meta) (λ j. RsGoing ((L.view w').rs j)) items k all
                    (listed.1.listed k r stored owned);
              step = SourcesStep-then (SourcesStep-same listed.0) step;
            }

  pub delete_rd_by_label-Ensures :
      (w : C.World)
      → Ensures (delete_rd_by_label C v) w (λ _ w'. DestinationsCleared (L.view w) (L.view w'))
  unfolding delete_rd_by_label
  delete_rd_by_label-Ensures w =
      Ensures-bind (Ensures-enclosing _ _ (I.list_rds (owned_in_namespace v) w refl))
        λ items w1 listed.
          Ensures-weaken
            (for_each-All (destinations-IsStep C L) (delete_listed_rd C)
              (delete_listed_rd-Ensures C L) items w1)
            λ _ w' (all, step). record {
              cleared = λ k r stored owned.
                  All-lists (λ (x : Rd). x.meta) (λ j. RdGoing ((L.view w').rd j)) items k all
                    (listed.1.listed k r stored owned);
              step = DestinationsStep-then (DestinationsStep-same listed.0) step;
            }
