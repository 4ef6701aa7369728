-- ===== src/Server/Trend/Transfer.antt =====
-- What a transfer of a trend writes, and the trend that it leaves.
use lib_abk.Common.{ℕ, ◌<◌, ◌≡◌, refl, ap, ◌∙◌, subst, arith, List, [], ◌∷◌, ◌++◌, Bytes}
use lib_abk.Json.Stream.{Store, close, write_members, tail}
use lib_abk.Json.Stream.Close.{close-fresh}
use lib_abk.Json.Stream.Wrote.{Wrote, separator, begin_member-Wrote, Wrote-write}
use lib_abk.Common.{drop_last}
use lib_abk.Server.Trend.{
  Trend, flush_trend, feed_trends, format_all_data, trend_member, closed_data, print-trend_member,
  drop_last-append, Keeps, feed_trends-Keeps, flush_trend-fresh, flush_trend-name,
}

-- Writing the members of another, closed formatter.
pub write_members-Wrote :
    (i : ℕ) (from s : Store) (text : Bytes)
    → from.dump ≡ b'{' ∷ (text ++ (b'}' ∷ []))
    → Wrote i 1 (separator i s ++ text) s (write_members i from s)
unfolding write_members
write_members-Wrote i from s text e =
    subst (λ x. Wrote i 1 (separator i s ++ x) s (write_members i from s))
      (ap (λ x. drop_last (tail x)) e ∙ drop_last-append text b'}')
      (Wrote-write (drop_last (tail from.dump)) (begin_member-Wrote i s))

pub format_all_data-Wrote :
    (t : Trend) (vs : List Bytes) (i : ℕ) (target : Store)
    → 0 < t.data_store.fresh
    → Wrote i 1
        (separator i target ++ trend_member t.trend_name vs)
        target
        (format_all_data i (feed_trends vs (flush_trend t)) target).1
unfolding format_all_data
format_all_data-Wrote t vs i target l =
    write_members-Wrote i (close 0 (feed_trends vs (flush_trend t)).data_store) target
      (trend_member t.trend_name vs) (closed_data t vs l ∙ print-trend_member t.trend_name vs)

pub format_all_data-flushes :
    (t : Trend) (vs : List Bytes) (i : ℕ) (target : Store)
    → 0 < t.data_store.fresh
    → (u : Trend) × (0 < u.data_store.fresh)
      × (u.trend_name ≡ t.trend_name)
      × ((format_all_data i (feed_trends vs (flush_trend t)) target).0 ≡ flush_trend u)
unfolding format_all_data Keeps
format_all_data-flushes t vs i target l =
    let u = feed_trends vs (flush_trend t) in
    let (n, e) = feed_trends-Keeps vs (flush_trend t) in
    let c = record u { data_store = close 0 u.data_store } in
    (
      c,
      omega (arith, l, n, flush_trend-fresh t, close-fresh 0 u.data_store),
      e ∙ flush_trend-name t,
      refl,
    )
