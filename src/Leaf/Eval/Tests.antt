-- ===== src/Leaf/Eval/Tests.antt =====
-- Expressions of crates/kernleaf/src/expr.rs over natural numbers, evaluated, and each theorem on one of them.
use Prim.Native.Nat.{compare}
use kernway.Prelude.{
  ℕ, ◌+◌, ◌-◌, ◌*◌, ◌/◌, ◌%◌, ◌≡◌, refl, pos, negsuc, true, some, [], ◌∷◌, ◌++◌, arith, ◌==◌, Bytes,
  codes, decimal, decimal_from, parse_u64, lookup, All, is_utf8, list_eq, nat_eq,
}
use kernway.Orm.Ordered.{has_prefix, contains_text}
use kernway.Core.Url.{is_unreserved, upper_hex, decoded, form_field}
use kernway.Leaf.Expr.{Expr, no_exprs, more, Params, no_params, param}
use kernway.Leaf.Value.{Floats, Value, no_pairs, pair, last_pair, get}
use kernway.Leaf.Computed.{Cases, value_to_string, to_text}
use kernway.Leaf.Eval.{
  Env, replace_from, url_encode, fill_url, query_text, build_url, fill_message, bound, resolve,
  eval,
}
use kernway.Leaf.Eval.Escapes.{IsInert, inert, eval-url_IsInert}
use kernway.Leaf.Eval.Queries.{build_url-form_field}

abbrev same_bytes : Bytes → Bytes
same_bytes s = s

abbrev numbers : Floats ℕ
numbers = record {
  zero = 0;
  one = 1;
  ten_to_15 = 1000000000000000;
  negate = λ n. 0;
  abs = λ n. n;
  fract = λ n. 0;
  plus = λ a b. a + b;
  minus = λ a b. a - b;
  times = λ a b. a * b;
  over = λ a b. a / b;
  modulo = λ a b. a % b;
  equal = λ a b. a == b;
  partial_cmp = λ a b. some (compare a b);
  is_finite = λ n. true;
  of_int = elim [ pos n ↦ n | negsuc n ↦ 0 ];
  of_count = λ n. n;
  to_int = pos;
  to_count = λ n. n;
  parse = parse_u64;
  text = decimal;
  fixed_text = λ d n. decimal n;
}

abbrev ascii : Cases
ascii = record { to_uppercase = same_bytes; to_lowercase = same_bytes }

-- A user whose name is markup, and a message of two arguments.
abbrev page : Env ℕ
page = record {
  model = Value.map (pair (codes "name") (Value.str (codes "<b>")) no_pairs);
  messages = (codes "swap", codes "{0}") ∷ [];
  context_path = codes "/app";
}

abbrev name_of : Expr ℕ
name_of = Expr.var (codes "name" ∷ [])

abbrev link : Params ℕ
link = param (codes "n") name_of no_params

abbrev run : Expr ℕ → Bytes
run e = to_text numbers (eval numbers ascii page [] e)

escapes_value : run (Expr.url (codes "/u") link) ≡ codes "/app/u?n=%3Cb%3E"
unfolding eval to_text value_to_string build_url fill_url query_text url_encode is_unreserved
    upper_hex contains_text has_prefix resolve bound get last_pair
escapes_value = refl

-- An argument that reads as the place of the next one is replaced by that one.
fills_argument :
    run (Expr.msg (codes "swap") (more (Expr.str (codes "{1}")) (more name_of no_exprs)))
    ≡ codes "<b>"
unfolding eval to_text value_to_string fill_message replace_from has_prefix resolve bound get
    last_pair lookup decimal decimal_from
fills_argument = refl

eval-url_IsInert_example : All IsInert (run (Expr.url (codes "/u") link))
eval-url_IsInert_example =
    eval-url_IsInert numbers ascii page [] (codes "/u") link
      (inert b'/' refl, (inert b'a' refl, (inert b'p' refl, (inert b'p' refl, tt))))
      (inert b'/' refl, (inert b'u' refl, tt))

build_url-form_field_example :
    (body : Bytes) × (build_url (codes "/app") (codes "/u") ((codes "n", codes "<b>") ∷ [])
      ≡ codes "/app" ++ (codes "/u" ++ b'?' ∷ body))
    × (form_field same_bytes body (codes "n") ≡ decoded (codes "<b>"))
unfolding is_unreserved is_utf8
build_url-form_field_example =
    build_url-form_field same_bytes (λ s h. refl) (codes "/app") (codes "/u") (codes "n")
      (codes "<b>") [] (refl, (refl, tt)) (refl, tt) (omega arith, (omega arith, (omega arith, tt)))
      refl tt
