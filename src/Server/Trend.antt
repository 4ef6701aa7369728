-- ===== src/Server/Trend.antt =====
-- ServerLib/Daq: the trend of a variable, `CDaqTrend`, with the feeding of `CVarRef::FeedTrend`.
-- The values since the last request are kept in a JSON document of their own, whose one array is
-- open; a request moves them to the reply. What the virtual `OnFormatValue` writes is an argument.
pub mod Transfer
use lib_abk.Common.{
  ℕ, ◌≤◌, ◌<◌, Bool, true, false, ◌≡◌, refl, ap, ap₂, ◌∙◌, arith, List, [], ◌∷◌, ◌++◌, Bytes,
  Option, none, some, drop_last, append_assoc, append-nil, Option-cases, inl, inr,
}
use lib_abk.Json.Escape.{std_string, quoted}
use lib_abk.Json.Document.{token, Values, no_values, values, print, print_values}
use lib_abk.Json.Stream.{
  Store, init_new, array_in_object, construct, begin_member, close, formatter, write_element,
  write_members, tail,
}
use lib_abk.Json.Stream.Close.{close-fresh}
use lib_abk.Json.Stream.Wrote.{separator, begin_member-Wrote}
use lib_abk.Json.Stream.Writer.{WritableValues, write_values}
use lib_abk.Server.Collector.{collection, close-filled}

-- `CDaqTrend`: `m_jfData`, `m_pJaData`, `m_strName` and `m_bEmpty`.
pub record Trend : Type 0 where
  pub data_store : Store
  pub data_array : Option ℕ
  pub trend_name : Bytes
  pub trend_empty : Bool

-- `if(m_pJaData) delete m_pJaData`.
abbrev pub delete_data : Option ℕ → Store → Store
delete_data none s = s
delete_data (some a) s = close a s

-- `CDaqTrend::Flush`.
unfoldable pub flush_trend : Trend → Trend
flush_trend t =
    let s = init_new (delete_data t.data_array t.data_store) in
    record t {
      data_store = array_in_object 0 std_string t.trend_name s;
      data_array = some s.fresh;
      trend_empty = true;
    }

-- The constructors of `CDaqTrend` with a name.
unfoldable pub new_trend : Bytes → Trend
unfolding flush_trend
new_trend name =
    flush_trend
      (record { data_store = formatter; data_array = none; trend_name = name; trend_empty = false })

-- The body of the loop in `CVarRef::FeedTrend`: `BeginMember`, then the value's text. Nothing is
-- written through a pointer that is NULL.
unfoldable pub feed_trend : Bytes → Trend → Trend
feed_trend value t = elim t.data_array [
  | none ↦ t
  | some a ↦ record t { data_store = write_element a value t.data_store }
]

unfoldable pub feed_trends : List Bytes → Trend → Trend
feed_trends [] t = t
feed_trends (v ∷ vs) t = feed_trends vs (feed_trend v t)

-- `CDaqTrend::FormatAllData` into the object `i` of another store.
unfoldable pub format_all_data : ℕ → Trend → Store → Trend × Store
unfolding flush_trend
format_all_data i t target =
    let closed = record t { data_store = close 0 t.data_store } in
    (flush_trend closed, write_members i closed.data_store target)

-- The values as the members of an array.
abbrev pub tokens : List Bytes → Values
tokens [] = no_values
tokens (v ∷ vs) = values (token v) (tokens vs)

pub tokens-WritableValues : (vs : List Bytes) → WritableValues (tokens vs)
tokens-WritableValues [] = tt
tokens-WritableValues (v ∷ vs) = (tt, tokens-WritableValues vs)

feed_trend-some :
    (v : Bytes) (t : Trend) (a : ℕ)
    → t.data_array ≡ some a
    → feed_trend v t ≡ record t { data_store = write_element a v t.data_store }
unfolding feed_trend
feed_trend-some v t a e = ground arith

feed_trends-write_values :
    (vs : List Bytes) (t : Trend) (a : ℕ)
    → t.data_array ≡ some a
    → feed_trends vs t ≡ record t { data_store = write_values a (tokens vs) t.data_store }
unfolding feed_trends write_values
feed_trends-write_values [] t a e = refl
feed_trends-write_values (v ∷ vs) t a e =
    ap (feed_trends vs) (feed_trend-some v t a e)
    ∙ feed_trends-write_values vs (record t { data_store = write_element a v t.data_store }) a e

drop_last-append : (s : Bytes) (c : ℕ) → drop_last (s ++ (c ∷ [])) ≡ s
drop_last-append [] c = refl
drop_last-append (x ∷ []) c = refl
drop_last-append (x ∷ y ∷ s) c = ap (λ r. x ∷ r) (drop_last-append (y ∷ s) c)

-- The member that a trend puts into a reply.
abbrev pub trend_member : Bytes → List Bytes → Bytes
trend_member name vs =
    quoted std_string name ++ (b':' ∷ b'[' ∷ (print_values true (tokens vs) ++ (b']' ∷ [])))

print-trend_member :
    (name : Bytes) (vs : List Bytes)
    → print (collection std_string name (tokens vs)) ≡ b'{' ∷ (trend_member name vs ++ (b'}' ∷ []))
unfolding print
print-trend_member name vs = simp (append_assoc, append-nil)

delete_data-fresh : (a : Option ℕ) (s : Store) → (delete_data a s).fresh ≡ s.fresh
delete_data-fresh none s = refl
delete_data-fresh (some i) s = close-fresh i s

-- The text of the closed document behind a flush and any feeding.
closed_data :
    (t : Trend) (vs : List Bytes)
    → 0 < t.data_store.fresh
    → (close 0 (feed_trends vs (flush_trend t)).data_store).dump
      ≡ print (collection std_string t.trend_name (tokens vs))
unfolding flush_trend init_new
closed_data t vs l =
    let s = delete_data t.data_array t.data_store in
    let k : 0 < s.fresh = omega (arith, l, delete_data-fresh t.data_array t.data_store) in
    ap (λ r. (close 0 r.data_store).dump) (feed_trends-write_values vs (flush_trend t) s.fresh refl)
    ∙ close-filled std_string t.trend_name (tokens vs) s k (tokens-WritableValues vs)

-- What a request appends to the reply.
written :
    (t : Trend) (vs : List Bytes) (i : ℕ) (target : Store)
    → 0 < t.data_store.fresh
    → (write_members i (close 0 (feed_trends vs (flush_trend t)).data_store) target).dump
      ≡ target.dump ++ (separator i target ++ trend_member t.trend_name vs)
unfolding write_members
written t vs i target l =
    ap (λ x. (begin_member i target).dump ++ drop_last (tail x))
      (closed_data t vs l ∙ print-trend_member t.trend_name vs)
    ∙ ap₂ (◌++◌) (begin_member-Wrote i target).dump
        (drop_last-append (trend_member t.trend_name vs) b'}')
    ∙ append_assoc target.dump (separator i target) (trend_member t.trend_name vs)

write_element-fresh : (a : ℕ) (v : Bytes) (s : Store) → (write_element a v s).fresh ≡ s.fresh
unfolding write_element begin_member
write_element-fresh a v s = ground arith

Keeps : Trend → Trend → Type 0
Keeps t u = (u.data_store.fresh ≡ t.data_store.fresh) × (u.trend_name ≡ t.trend_name)

feed_trend-Keeps : (v : Bytes) (t : Trend) → Keeps t (feed_trend v t)
unfolding feed_trend Keeps
feed_trend-Keeps v t = elim (Option-cases t.data_array) [
  | inl e ↦ rw e (refl, refl)
  | inr (a, e) ↦ rw e (write_element-fresh a v t.data_store, refl)
]

feed_trends-Keeps : (vs : List Bytes) (t : Trend) → Keeps t (feed_trends vs t)
unfolding feed_trends Keeps
feed_trends-Keeps [] t = (refl, refl)
feed_trends-Keeps (v ∷ vs) t =
    let h = feed_trends-Keeps vs (feed_trend v t) in
    let k = feed_trend-Keeps v t in (h.0 ∙ k.0, h.1 ∙ k.1)

flush_trend-fresh : (t : Trend) → t.data_store.fresh ≤ (flush_trend t).data_store.fresh
unfolding flush_trend array_in_object construct begin_member init_new
flush_trend-fresh t = grind (arith, delete_data-fresh t.data_array t.data_store)

flush_trend-name : (t : Trend) → (flush_trend t).trend_name ≡ t.trend_name
unfolding flush_trend
flush_trend-name t = refl

-- A request of a trend's data, after a flush in any state and any feeding: the reply's object gets
-- one more member, behind a comma if it is not the first, whose name is the trend's and whose
-- value is the array of just the values that were fed since, in order. The trend is flushed: fed
-- again and asked again, it gives the new values only. The condition: at least the trend's
-- formatter was constructed.
pub format_all_data-feed_trends :
    (t : Trend) (vs ws : List Bytes) (i j : ℕ) (target other : Store)
    → 0 < t.data_store.fresh
    → ((format_all_data i (feed_trends vs (flush_trend t)) target).1.dump
        ≡ target.dump ++ (separator i target ++ trend_member t.trend_name vs))
      × ((format_all_data j
            (feed_trends ws (format_all_data i (feed_trends vs (flush_trend t)) target).0)
            other).1.dump
          ≡ other.dump ++ (separator j other ++ trend_member t.trend_name ws))
unfolding format_all_data Keeps
format_all_data-feed_trends t vs ws i j target other l =
    let u = feed_trends vs (flush_trend t) in
    let (n, e) = feed_trends-Keeps vs (flush_trend t) in
    let c = record u { data_store = close 0 u.data_store } in
    let k : 0 < c.data_store.fresh =
      omega (arith, l, n, flush_trend-fresh t, close-fresh 0 u.data_store) in
    (
      written t vs i target l,
      written c ws j other k
          ∙ ap (λ x. other.dump ++ (separator j other ++ trend_member x ws))
              (e ∙ flush_trend-name t),
    )
