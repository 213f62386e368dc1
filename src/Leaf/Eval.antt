-- ===== src/Leaf/Eval.antt =====
-- The evaluation of expressions in crates/kernleaf/src/expr.rs. The scope is a list of names and values, the innermost last.
-- `str::replace` is written out for a pattern that is not empty, as the patterns here are.
pub mod Escapes
pub mod Queries
mod Tests
use kernway.Prelude.{
  ℕ, zero, suc, ◌+◌, ◌-◌, ◌/◌, ◌%◌, Bool, true, false, not, Option, none, some, List, [], ◌∷◌, ◌++◌,
  if◌then◌else◌, Bytes, codes, length, decimal, is_empty, Map, lookup, same, list_eq, nat_eq,
}
use kernway.Orm.Ordered.{has_prefix, contains_text}
use kernway.Core.Url.{is_unreserved, upper_hex}
use kernway.Leaf.Expr.{UnOp, Expr, Exprs, no_exprs, more, Params, no_params, param}
use kernway.Leaf.Value.{Floats, Value, get}
use kernway.Leaf.Computed.{Cases, EvalVal, to_bool, to_text, as_num, or_num, eval_binary}
use kernway.Leaf.Utilities.{eval_util}

-- What an expression reads of its environment.
pub record Env (F : Type 0) : Type 0 where
  pub model : Value F
  pub messages : Map Bytes Bytes
  pub context_path : Bytes

-- The number is how many bytes of a match are still to be passed over.
unfoldable pub replace_from : Bytes → Bytes → ℕ → Bytes → Bytes
unfolding has_prefix
replace_from pattern to n [] = []
replace_from pattern to (suc n) (c ∷ s) = replace_from pattern to n s
replace_from pattern to zero (c ∷ s) = elim (has_prefix pattern (c ∷ s)) [
  | true ↦ to ++ replace_from pattern to (length pattern - 1) s
  | false ↦ c ∷ replace_from pattern to zero s
]

abbrev pub replace : Bytes → Bytes → Bytes → Bytes
replace pattern to s = replace_from pattern to 0 s

unfoldable pub url_encode : Bytes → Bytes
url_encode [] = []
url_encode (b ∷ s) =
    let rest = url_encode s in
    if is_unreserved b then b ∷ rest else b'%' ∷ upper_hex (b / 16) ∷ upper_hex (b % 16) ∷ rest

abbrev pub slot : Bytes → Bytes
slot name = b'{' ∷ name ++ b'}' ∷ []

-- The loop of `eval_url`, with the URL and the query so far.
unfoldable pub fill_url :
    List (Bytes × Bytes) → Bytes → List (Bytes × Bytes) → Bytes × List (Bytes × Bytes)
unfolding url_encode replace_from
fill_url [] url query = (url, query)
fill_url ((name, val) ∷ params) url query = elim (contains_text (slot name) url) [
  | true ↦ fill_url params (replace (slot name) (url_encode val) url) query
  | false ↦ fill_url params url (query ++ (name, val) ∷ [])
]

-- The pairs, each behind a separator: `?` for the first and `&` for the others.
unfoldable pub query_text : ℕ → List (Bytes × Bytes) → Bytes
unfolding url_encode
query_text sep [] = []
query_text sep ((k, v) ∷ query) =
    sep ∷ (url_encode k ++ b'=' ∷ (url_encode v ++ query_text b'&' query))

unfoldable pub build_url : Bytes → Bytes → List (Bytes × Bytes) → Bytes
unfolding fill_url query_text
build_url context_path base params =
    let (url, query) = fill_url params base [] in context_path ++ (url ++ query_text b'?' query)

-- The loop of `eval_msg`.
unfoldable pub fill_message : ℕ → List Bytes → Bytes → Bytes
unfolding replace_from
fill_message i [] text = text
fill_message i (a ∷ args) text = fill_message (suc i) args (replace (slot (decimal i)) a text)

abbrev pub message : Bytes → List Bytes → Option Bytes → Bytes
message key args none = codes "??" ++ (key ++ codes "??")
message key args (some t) = fill_message 0 args t

module _ {F : Type 0} where
  -- The last binding of the name, or the model's field.
  unfoldable pub bound : Bytes → List (Bytes × Value F) → Option (Value F) → Option (Value F)
  bound head [] of_model = of_model
  bound head ((name, v) ∷ scope) of_model =
      bound head scope (if same name head then some v else of_model)

  abbrev pub follow : Option (Value F) → List Bytes → Option (Value F)
  follow none tail = none
  follow (some v) [] = some v
  follow (some v) (seg ∷ tail) = follow (get v seg) tail

  unfoldable pub resolve : List Bytes → Value F → List (Bytes × Value F) → Option (Value F)
  unfolding bound get
  resolve [] model scope = none
  resolve (head ∷ tail) model scope = follow (bound head scope (get model head)) tail

  abbrev pub found_value : Option (Value F) → EvalVal F
  found_value none = EvalVal.null
  found_value (some v) = EvalVal.reference v

module _ {F : Type 0} (floats : Floats F) (cases : Cases) (env : Env F)
    (scope : List (Bytes × Value F)) where
  abbrev pub texts : List (EvalVal F) → List Bytes
  texts [] = []
  texts (v ∷ vs) = to_text floats v ∷ texts vs

  abbrev pub flat : List Bytes → Bytes
  flat [] = []
  flat (s ∷ ss) = s ++ flat ss

  unfoldable mutual
    unfolding resolve eval_util to_bool to_text as_num eval_binary build_url

    pub eval : Expr F → EvalVal F
    eval (Expr.var path) = found_value (resolve path env.model scope)
    eval (Expr.str s) = EvalVal.str s
    eval (Expr.num n) = EvalVal.num n
    eval (Expr.bool b) = EvalVal.bool b
    eval Expr.null = EvalVal.null
    eval (Expr.template parts) = EvalVal.str (flat (texts (eval_all parts)))
    eval (Expr.url base params) = EvalVal.str (build_url env.context_path base (eval_params params))
    eval (Expr.msg key args) =
        EvalVal.str (message key (texts (eval_all args)) (lookup key env.messages))
    eval (Expr.util object method args) = eval_util floats cases object method (eval_all args)
    eval (Expr.unary UnOp.not x) = EvalVal.bool (not (to_bool floats (eval x)))
    eval (Expr.unary UnOp.neg x) =
        EvalVal.num (floats.negate (or_num floats (as_num floats (eval x)) floats.zero))
    eval (Expr.ternary c a b) =
        let taken = eval a in let other = eval b in if to_bool floats (eval c) then taken else other
    eval (Expr.elvis a b) =
        let value = eval a in let other = eval b in if to_bool floats value then value else other
    eval (Expr.binary op l r) = eval_binary floats op (eval l) (eval r)

    pub eval_all : Exprs F → List (EvalVal F)
    eval_all no_exprs = []
    eval_all (more e es) = eval e ∷ eval_all es

    pub eval_params : Params F → List (Bytes × Bytes)
    eval_params no_params = []
    eval_params (param name e ps) = (name, to_text floats (eval e)) ∷ eval_params ps
