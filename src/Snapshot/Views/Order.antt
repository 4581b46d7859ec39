-- ===== src/Snapshot/Views/Order.antt =====
-- The order of the upstreams in the view.
use gatepup.Prelude.{
  ◌≡◌, ◌≢◌, refl, ap, ◌∙◌, true, false, List, [], ◌∷◌, map, ◌==◌, Bool-cases, inl, inr, Text, arith,
}
use gatepup.Upstream.{UpstreamRuntime}
use gatepup.Snapshot.{RuntimeConfig}
use gatepup.Snapshot.Views.{UpstreamView, text_le, insert, sort, upstream_view, upstreams_view}

text_le_total : (s t : Text) → text_le s t ≡ false → text_le t s ≡ true
unfolding text_le
text_le_total [] t h = absurd (ground arith)
text_le_total (x ∷ s) [] h = refl
text_le_total (x ∷ s) (y ∷ t) h = ground (arith, text_le_total s t)

text_le_antisym : (s t : Text) → text_le s t ≡ true → text_le t s ≡ true → s ≡ t
unfolding text_le
text_le_antisym [] [] h k = refl
text_le_antisym [] (y ∷ t) h k = absurd (ground arith)
text_le_antisym (x ∷ s) [] h k = absurd (ground arith)
text_le_antisym (x ∷ s) (y ∷ t) h k = elim (Bool-cases (x == y)) [
  | inl e ↦
      let same : x ≡ y = ground arith in
      let r : s ≡ t = text_le_antisym s t (ground arith) (ground arith) in cc
  | inr e ↦ absurd (ground arith)
]

text_le_trans : (s t u : Text) → text_le s t ≡ true → text_le t u ≡ true → text_le s u ≡ true
unfolding text_le
text_le_trans [] t u h k = refl
text_le_trans (x ∷ s) [] u h k = absurd (ground arith)
text_le_trans (x ∷ s) (y ∷ t) [] h k = absurd (ground arith)
text_le_trans (x ∷ s) (y ∷ t) (z ∷ u) h k = ground (arith, text_le_trans s t u)

insert_swap :
    (v w : UpstreamView) (vs : List UpstreamView)
    → v.name ≢ w.name
    → insert v (insert w vs) ≡ insert w (insert v vs)
unfolding insert
insert_swap v w [] n = ground (arith, text_le_antisym v.name w.name, text_le_total v.name w.name)
insert_swap v w (y ∷ vs) n = ground (
  arith,
  text_le_antisym v.name w.name,
  text_le_total v.name w.name,
  text_le_trans v.name w.name y.name,
  text_le_trans w.name v.name y.name,
  insert_swap v w vs n,
)

-- The same entries, with distinct names, in another order.
pub data Reordered : List (Text × UpstreamRuntime) → List (Text × UpstreamRuntime) → Type 0 where
  same : (t : List (Text × UpstreamRuntime)) → Reordered t t
  skip :
      {t u : List (Text × UpstreamRuntime)} (e : Text × UpstreamRuntime)
      → Reordered t u
      → Reordered (e ∷ t) (e ∷ u)
  swap :
      (e f : Text × UpstreamRuntime) (t : List (Text × UpstreamRuntime))
      → e.0 ≢ f.0
      → Reordered (e ∷ f ∷ t) (f ∷ e ∷ t)
  trans : {t u v : List (Text × UpstreamRuntime)} → Reordered t u → Reordered u v → Reordered t v

sort-map-Reordered :
    {t u : List (Text × UpstreamRuntime)}
    → Reordered t u
    → sort (map upstream_view t) ≡ sort (map upstream_view u)
unfolding sort
sort-map-Reordered (same t) = refl
sort-map-Reordered (skip e r) = ap (insert (upstream_view e)) (sort-map-Reordered r)
sort-map-Reordered (swap e f t n) =
    insert_swap (upstream_view e) (upstream_view f) (sort (map upstream_view t)) n
sort-map-Reordered (trans r q) = sort-map-Reordered r ∙ sort-map-Reordered q

-- The document of the upstreams does not show in which order the map of the snapshot, a `HashMap`,
-- runs through them.
pub upstreams_view_reordered :
    {F Net Tls : Type 0} (s : RuntimeConfig F Net Tls) (t : List (Text × UpstreamRuntime))
    → Reordered s.upstreams t
    → upstreams_view s ≡ upstreams_view (record s { upstreams = t })
unfolding upstreams_view
upstreams_view_reordered s t r = sort-map-Reordered r
