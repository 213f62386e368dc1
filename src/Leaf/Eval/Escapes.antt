-- ===== src/Leaf/Eval/Escapes.antt =====
-- Which bytes a URL of crates/kernleaf/src/expr.rs can hold.
use kernway.Prelude.{
  ℕ, zero, suc, ◌-◌, ◌==◌, ◌||◌, ◌/◌, ◌%◌, ◌≡◌, ◌≢◌, refl, Bool, true, false, Bool-cases, inl, inr,
  List, [], ◌∷◌, ◌++◌, arith, Bytes, length, All, All-append,
}
use kernway.Orm.Ordered.{has_prefix, contains_text}
use kernway.Core.Url.{is_unreserved, upper_hex}
use kernway.Leaf.Expr.{Expr, Params}
use kernway.Leaf.Value.{Floats, Value}
use kernway.Leaf.Computed.{Cases, to_text}
use kernway.Leaf.Eval.{
  Env, replace_from, replace, url_encode, slot, fill_url, query_text, build_url, eval, eval_params,
}

-- A byte that neither ends an attribute nor opens or closes an element.
pub record IsInert (b : ℕ) : Type 0 where
  pub no_quote : b ≢ b'"'
  pub no_apostrophe : b ≢ 39
  pub no_open : b ≢ b'<'
  pub no_close : b ≢ b'>'

abbrev pub is_markup : ℕ → Bool
is_markup b = b == b'"' || (b == 39 || (b == b'<' || b == b'>'))

pub inert : (b : ℕ) → is_markup b ≡ false → IsInert b
inert b h = record {
  no_quote = λ bad. ground (arith, h, bad);
  no_apostrophe = λ bad. ground (arith, h, bad);
  no_open = λ bad. ground (arith, h, bad);
  no_close = λ bad. ground (arith, h, bad);
}

digit-IsInert : (d : ℕ) → IsInert (upper_hex d)
unfolding upper_hex
digit-IsInert d = inert (upper_hex d) (ground arith)

kept-IsInert : (b : ℕ) → is_unreserved b ≡ true → IsInert b
unfolding is_unreserved
kept-IsInert b h = inert b (ground (arith, h))

url_encode-IsInert : (s : Bytes) → All IsInert (url_encode s)
unfolding url_encode
url_encode-IsInert [] = tt
url_encode-IsInert (b ∷ s) = elim (Bool-cases (is_unreserved b)) [
  | inl e ↦ rw e (kept-IsInert b e, url_encode-IsInert s)
  | inr e ↦
      rw e
        (inert b'%' refl, (digit-IsInert (b / 16), (digit-IsInert (b % 16), url_encode-IsInert s)))
]

replace_from-IsInert :
    (pattern to : Bytes) (n : ℕ) (s : Bytes)
    → All IsInert to
    → All IsInert s
    → All IsInert (replace_from pattern to n s)
unfolding replace_from
replace_from-IsInert pattern to zero [] h k = tt
replace_from-IsInert pattern to (suc n) [] h k = tt
replace_from-IsInert pattern to (suc n) (c ∷ s) h (k, ks) = replace_from-IsInert pattern to n s h ks
replace_from-IsInert pattern to zero (c ∷ s) h (k, ks) =
    elim (Bool-cases (has_prefix pattern (c ∷ s))) [
      | inl e ↦
          rw (replace_from, e)
            (All-append IsInert to (replace_from pattern to (length pattern - 1) s) h
              (replace_from-IsInert pattern to (length pattern - 1) s h ks))
      | inr e ↦ rw (replace_from, e) (k, replace_from-IsInert pattern to 0 s h ks)
    ]

fill_url-IsInert :
    (params : List (Bytes × Bytes)) (url : Bytes) (query : List (Bytes × Bytes))
    → All IsInert url
    → All IsInert (fill_url params url query).0
unfolding fill_url
fill_url-IsInert [] url query h = h
fill_url-IsInert ((name, val) ∷ params) url query h =
    elim (Bool-cases (contains_text (slot name) url)) [
      | inl e ↦
          rw (fill_url, e)
            (fill_url-IsInert params (replace (slot name) (url_encode val) url) query
              (replace_from-IsInert (slot name) (url_encode val) 0 url (url_encode-IsInert val) h))
      | inr e ↦ rw (fill_url, e) (fill_url-IsInert params url (query ++ (name, val) ∷ []) h)
    ]

query_text-IsInert :
    (sep : ℕ) (query : List (Bytes × Bytes)) → IsInert sep → All IsInert (query_text sep query)
unfolding query_text
query_text-IsInert sep [] h = tt
query_text-IsInert sep ((k, v) ∷ query) h = (
  h,
  All-append IsInert (url_encode k) (b'=' ∷ (url_encode v ++ query_text b'&' query))
      (url_encode-IsInert k)
      (
        inert b'=' refl,
        All-append IsInert (url_encode v) (query_text b'&' query) (url_encode-IsInert v)
            (query_text-IsInert b'&' query (inert b'&' refl)),
      ),
)

build_url-IsInert :
    (context_path base : Bytes) (params : List (Bytes × Bytes))
    → All IsInert context_path
    → All IsInert base
    → All IsInert (build_url context_path base params)
unfolding build_url
build_url-IsInert context_path base params h k =
    let parts = fill_url params base [] in
    All-append IsInert context_path (parts.0 ++ query_text b'?' parts.1) h (
      All-append IsInert parts.0 (query_text b'?' parts.1) (fill_url-IsInert params base [] k)
        (query_text-IsInert b'?' parts.1 (inert b'?' refl)))

-- Where neither the address in the template nor the context path holds a quote, an apostrophe or an
-- angle bracket, the text of a `@{…}` holds none either, whatever its parameters are named and evaluate to.
pub eval-url_IsInert :
    {F : Type 0}
    → (floats : Floats F) (cases : Cases) (env : Env F) (scope : List (Bytes × Value F))
      (base : Bytes) (params : Params F)
    → All IsInert env.context_path
    → All IsInert base
    → All IsInert (to_text floats (eval floats cases env scope (Expr.url base params)))
unfolding eval to_text
eval-url_IsInert floats cases env scope base params h k =
    build_url-IsInert env.context_path base (eval_params floats cases env scope params) h k
