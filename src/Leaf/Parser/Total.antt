-- ===== src/Leaf/Parser/Total.antt =====
-- The parser of crates/kernleaf/src/expr.rs ends on every text. The bounds on the fuel are for each function: twenty
-- for each token and each byte that a token keeps, and what its own calls take before one is read.
use kernway.Prelude.{
  ℕ, zero, suc, ◌+◌, ◌*◌, ◌≤◌, ◌≢◌, Option, List, [], ◌∷◌, arith, Bool-cases, Option-cases, inl,
  inr, ◌==◌, Bytes, length, trim, length-trim, split_once, length-split_once, is_empty,
}
use kernway.Leaf.Expr.{Expr, more, param, UnOp, Tok, parsed, exhausted, ◌>>=◌}
use kernway.Leaf.Lexer.{tokenize}
use kernway.Leaf.Lexer.Load.{
  weight, load, weight_pos, Leaves, Leaves-weaken, Leaves-then, Leaves-after, Ends, Ends-then,
  Ends-after, Ends-not_exhausted,
}
use kernway.Leaf.Lexer.Total.{tokenize-Loaded}
use kernway.Leaf.Parser.{
  Level, or_level, and_level, equality, comparison, additive, multiplicative, op_at, split_path,
  rsplit_dot, head_and_params, split_top_commas, find_embed, finished, closed_by, with_text, parse,
  parse_all, ternary, ternary_rest, ternary_else, binary, chain, operand, unary, primary, named,
  arguments, arg_list, arg_rest, parse_template, parse_params, parse_args,
}
use kernway.Leaf.Parser.Steps.{
  Bytes-cases, split_path-Ends, rank, rank_bound, finished-Ends, closed_by-rbrace, closed_by-rparen,
  parse-of_tokens,
}
use kernway.Leaf.Parser.Pieces.{span, span-params, length-find_embed}

module _ {Num : Type 0} (parse_num : Bytes → Option Num) where
  mutual
    unfolding parse parse_all ternary ternary_rest ternary_else binary chain operand unary primary
        named arguments arg_list arg_rest parse_template parse_params parse_args load weight span

    parse-Ends : (f : ℕ) (s : Bytes) → 20 * length s + 18 ≤ f → Ends (parse parse_num f s)
    parse-Ends zero s h = absurd (omega (arith, h))
    parse-Ends (suc f) s h =
        parse-of_tokens parse_num f (length s) (tokenize parse_num (length s) s)
          (tokenize-Loaded parse_num (length s) s (omega arith))
          (λ toks le. parse_all-Ends f toks (omega (arith, h, le)))

    parse_all-Ends :
        (f : ℕ) (toks : List (Tok Num))
        → 20 * load toks + 17 ≤ f
        → Ends (parse_all parse_num f toks)
    parse_all-Ends zero toks h = absurd (omega (arith, h))
    parse_all-Ends (suc f) [] h = tt
    parse_all-Ends (suc f) (t ∷ ts) h =
        Ends-after (load (t ∷ ts)) (ternary parse_num f (t ∷ ts)) (finished parse_num)
          (ternary-Leaves f (t ∷ ts) (omega (arith, h))) (finished-Ends parse_num)

    ternary-Leaves :
        (f : ℕ) (toks : List (Tok Num))
        → 20 * load toks + 16 ≤ f
        → Leaves (load toks) (ternary parse_num f toks)
    ternary-Leaves zero toks h = absurd (omega (arith, h))
    ternary-Leaves (suc f) toks h =
        Leaves-then (load toks) (load toks) (binary parse_num f or_level toks)
          (λ (cond, rest). ternary_rest parse_num f cond rest)
          (binary-Leaves f or_level toks (omega (arith, h)))
          (λ cond rest lt.
            Leaves-weaken (suc (load rest)) (load toks) (ternary_rest parse_num f cond rest) lt
              (ternary_rest-Leaves f cond rest (omega (arith, h, lt))))

    ternary_rest-Leaves :
        (f : ℕ) (cond : Expr Num) (toks : List (Tok Num))
        → 20 * load toks + 1 ≤ f
        → Leaves (suc (load toks)) (ternary_rest parse_num f cond toks)
    ternary_rest-Leaves zero cond toks h = absurd (omega (arith, h))
    ternary_rest-Leaves (suc f) cond (Tok.elvis ∷ ts) h =
        Leaves-then (load ts) (suc (load (Tok.elvis ∷ ts))) (ternary parse_num f ts)
          (λ (alt, rest). parsed (Expr.elvis cond alt, rest))
          (ternary-Leaves f ts (omega (arith, h))) (λ alt rest lt. omega (arith, lt))
    ternary_rest-Leaves (suc f) cond (Tok.question ∷ ts) h =
        Leaves-then (load ts) (suc (load (Tok.question ∷ ts))) (ternary parse_num f ts)
          (λ (taken, rest). ternary_else parse_num f cond taken rest)
          (ternary-Leaves f ts (omega (arith, h)))
          (λ taken rest lt.
            Leaves-weaken (suc (load rest)) (suc (load (Tok.question ∷ ts)))
              (ternary_else parse_num f cond taken rest) (omega (arith, lt))
              (ternary_else-Leaves f cond taken rest (omega (arith, h, lt))))
    ternary_rest-Leaves (suc f) cond toks h = omega arith

    ternary_else-Leaves :
        (f : ℕ) (cond taken : Expr Num) (toks : List (Tok Num))
        → 20 * load toks + 1 ≤ f
        → Leaves (suc (load toks)) (ternary_else parse_num f cond taken toks)
    ternary_else-Leaves zero cond taken toks h = absurd (omega (arith, h))
    ternary_else-Leaves (suc f) cond taken (Tok.colon ∷ ts) h =
        Leaves-then (load ts) (suc (load (Tok.colon ∷ ts))) (ternary parse_num f ts)
          (λ (els, rest). parsed (Expr.ternary cond taken els, rest))
          (ternary-Leaves f ts (omega (arith, h))) (λ els rest lt. omega (arith, lt))
    ternary_else-Leaves (suc f) cond taken toks h = tt

    binary-Leaves :
        (f : ℕ) (level : Level) (toks : List (Tok Num))
        → 20 * load toks + suc (rank level) ≤ f
        → Leaves (load toks) (binary parse_num f level toks)
    binary-Leaves zero level toks h = absurd (omega (arith, h))
    binary-Leaves (suc f) level toks h =
        Leaves-then (load toks) (load toks) (operand parse_num f level toks)
          (λ (e, rest). chain parse_num f level e rest)
          (operand-Leaves f level toks (omega (arith, h)))
          (λ e rest lt.
            Leaves-weaken (suc (load rest)) (load toks) (chain parse_num f level e rest) lt
              (chain-Leaves f level e rest (omega (arith, h, lt))))

    chain-Leaves :
        (f : ℕ) (level : Level) (e : Expr Num) (toks : List (Tok Num))
        → 20 * load toks + 1 ≤ f
        → Leaves (suc (load toks)) (chain parse_num f level e toks)
    chain-Leaves zero level e toks h = absurd (omega (arith, h))
    chain-Leaves (suc f) level e [] h = omega arith
    chain-Leaves (suc f) level e (t ∷ ts) h = elim (Option-cases (op_at level t)) [
      | inl q ↦ rw (chain, q) (omega arith)
      | inr (op, q) ↦
          rw (chain, q)
            (Leaves-then (load ts) (suc (load (t ∷ ts))) (operand parse_num f level ts)
              (λ (r, rest). chain parse_num f level (Expr.binary op e r) rest)
              (operand-Leaves f level ts (omega (arith, h, rank_bound level, weight_pos t)))
              (λ r rest lt.
                Leaves-weaken (suc (load rest)) (suc (load (t ∷ ts)))
                  (chain parse_num f level (Expr.binary op e r) rest) (omega (arith, lt))
                  (chain-Leaves f level (Expr.binary op e r) rest (omega (arith, h, lt)))))
    ]

    operand-Leaves :
        (f : ℕ) (level : Level) (toks : List (Tok Num))
        → 20 * load toks + rank level ≤ f
        → Leaves (load toks) (operand parse_num f level toks)
    operand-Leaves zero or_level toks h = absurd (omega (arith, h))
    operand-Leaves zero and_level toks h = absurd (omega (arith, h))
    operand-Leaves zero equality toks h = absurd (omega (arith, h))
    operand-Leaves zero comparison toks h = absurd (omega (arith, h))
    operand-Leaves zero additive toks h = absurd (omega (arith, h))
    operand-Leaves zero multiplicative toks h = absurd (omega (arith, h))
    operand-Leaves (suc f) or_level toks h = binary-Leaves f and_level toks (omega (arith, h))
    operand-Leaves (suc f) and_level toks h = binary-Leaves f equality toks (omega (arith, h))
    operand-Leaves (suc f) equality toks h = binary-Leaves f comparison toks (omega (arith, h))
    operand-Leaves (suc f) comparison toks h = binary-Leaves f additive toks (omega (arith, h))
    operand-Leaves (suc f) additive toks h = binary-Leaves f multiplicative toks (omega (arith, h))
    operand-Leaves (suc f) multiplicative toks h = unary-Leaves f toks (omega (arith, h))

    unary-Leaves :
        (f : ℕ) (toks : List (Tok Num))
        → 20 * load toks + 3 ≤ f
        → Leaves (load toks) (unary parse_num f toks)
    unary-Leaves zero toks h = absurd (omega (arith, h))
    unary-Leaves (suc f) (Tok.minus ∷ ts) h =
        Leaves-then (load ts) (load (Tok.minus ∷ ts)) (unary parse_num f ts)
          (λ (e, rest). parsed (Expr.unary UnOp.neg e, rest)) (unary-Leaves f ts (omega (arith, h)))
          (λ e rest lt. omega (arith, lt))
    unary-Leaves (suc f) (Tok.not ∷ ts) h =
        Leaves-then (load ts) (load (Tok.not ∷ ts)) (unary parse_num f ts)
          (λ (e, rest). parsed (Expr.unary UnOp.not e, rest)) (unary-Leaves f ts (omega (arith, h)))
          (λ e rest lt. omega (arith, lt))
    unary-Leaves (suc f) toks h = primary-Leaves f toks (omega (arith, h))

    primary-Leaves :
        (f : ℕ) (toks : List (Tok Num))
        → 20 * load toks + 2 ≤ f
        → Leaves (load toks) (primary parse_num f toks)
    primary-Leaves zero toks h = absurd (omega (arith, h))
    primary-Leaves (suc f) (Tok.num n ∷ ts) h = omega arith
    primary-Leaves (suc f) (Tok.str s ∷ ts) h = omega arith
    primary-Leaves (suc f) (Tok.true_tok ∷ ts) h = omega arith
    primary-Leaves (suc f) (Tok.false_tok ∷ ts) h = omega arith
    primary-Leaves (suc f) (Tok.null_tok ∷ ts) h = omega arith
    primary-Leaves (suc f) (Tok.ident path ∷ ts) h =
        Leaves-weaken (suc (load ts)) (load (Tok.ident path ∷ ts)) (named parse_num f path ts)
          (omega arith) (named-Leaves f path ts (omega (arith, h)))
    primary-Leaves (suc f) (Tok.template_raw raw ∷ ts) h =
        Leaves-after (load (Tok.template_raw raw ∷ ts)) (parse_template parse_num f raw)
          (λ parts. parsed (Expr.template parts, ts)) (parse_template-Ends f raw (omega (arith, h)))
          (λ parts. omega arith)
    primary-Leaves (suc f) (Tok.url_raw raw ∷ ts) h =
        let parts = split_top_commas (head_and_params (trim raw)).1 in
        Leaves-after (load (Tok.url_raw raw ∷ ts)) (parse_params parse_num f parts)
          (λ params. parsed (Expr.url (trim (head_and_params (trim raw)).0) params, ts))
          (parse_params-Ends f parts (omega (arith, h, span-params (trim raw), length-trim raw)))
          (λ params. omega arith)
    primary-Leaves (suc f) (Tok.msg_raw raw ∷ ts) h =
        let parts = split_top_commas (head_and_params (trim raw)).1 in
        elim (Bytes-cases (trim (head_and_params (trim raw)).0)) [
          | inl e ↦ rw (primary, e) tt
          | inr (c, s, e) ↦
              rw (primary, e)
                (Leaves-after (load (Tok.msg_raw raw ∷ ts)) (parse_args parse_num f parts)
                  (λ args. parsed (Expr.msg (c ∷ s) args, ts))
                  (parse_args-Ends f parts
                    (omega (arith, h, span-params (trim raw), length-trim raw)))
                  (λ args. omega arith))
        ]
    primary-Leaves (suc f) (Tok.dollar_open ∷ ts) h =
        Leaves-then (load ts) (load (Tok.dollar_open ∷ ts)) (ternary parse_num f ts)
          (closed_by parse_num Tok.rbrace) (ternary-Leaves f ts (omega (arith, h)))
          (λ e rest lt.
            closed_by-rbrace parse_num e rest (load (Tok.dollar_open ∷ ts)) (omega (arith, lt)))
    primary-Leaves (suc f) (Tok.star_open ∷ ts) h =
        Leaves-then (load ts) (load (Tok.star_open ∷ ts)) (ternary parse_num f ts)
          (closed_by parse_num Tok.rbrace) (ternary-Leaves f ts (omega (arith, h)))
          (λ e rest lt.
            closed_by-rbrace parse_num e rest (load (Tok.star_open ∷ ts)) (omega (arith, lt)))
    primary-Leaves (suc f) (Tok.lparen ∷ ts) h =
        Leaves-then (load ts) (load (Tok.lparen ∷ ts)) (ternary parse_num f ts)
          (closed_by parse_num Tok.rparen) (ternary-Leaves f ts (omega (arith, h)))
          (λ e rest lt.
            closed_by-rparen parse_num e rest (load (Tok.lparen ∷ ts)) (omega (arith, lt)))
    primary-Leaves (suc f) toks h = tt

    named-Leaves :
        (f : ℕ) (path : Bytes) (toks : List (Tok Num))
        → 20 * load toks + 2 ≤ f
        → Leaves (suc (load toks)) (named parse_num f path toks)
    named-Leaves zero path toks h = absurd (omega (arith, h))
    named-Leaves (suc f) [] toks h =
        Leaves-after (suc (load toks)) (split_path []) (λ path. parsed (Expr.var path, toks))
          (split_path-Ends []) (λ path. omega arith)
    named-Leaves (suc f) (c ∷ s) toks h = elim (Bool-cases (c == b'#')) [
      | inl e ↦ elim (Option-cases (rsplit_dot s)) [
        | inl q ↦ rw (named, e, q) tt
        | inr ((object, method), q) ↦
            rw (named, e, q)
              (Leaves-then (suc (load toks)) (suc (load toks)) (arguments parse_num f toks)
                (λ (args, rest). parsed (Expr.util object method args, rest))
                (arguments-Leaves f toks (omega (arith, h))) (λ args rest lt. lt))
      ]
      | inr e ↦
          rw (named, e)
            (Leaves-after (suc (load toks)) (split_path (c ∷ s))
              (λ path. parsed (Expr.var path, toks)) (split_path-Ends (c ∷ s))
              (λ path. omega arith))
    ]

    arguments-Leaves :
        (f : ℕ) (toks : List (Tok Num))
        → 20 * load toks + 1 ≤ f
        → Leaves (suc (load toks)) (arguments parse_num f toks)
    arguments-Leaves zero toks h = absurd (omega (arith, h))
    arguments-Leaves (suc f) (Tok.lparen ∷ Tok.rparen ∷ ts) h = omega arith
    arguments-Leaves (suc f) (Tok.lparen ∷ ts) h =
        Leaves-weaken (suc (load ts)) (suc (load (Tok.lparen ∷ ts))) (arg_list parse_num f ts)
          (omega arith) (arg_list-Leaves f ts (omega (arith, h)))
    arguments-Leaves (suc f) toks h = tt

    arg_list-Leaves :
        (f : ℕ) (toks : List (Tok Num))
        → 20 * load toks + 17 ≤ f
        → Leaves (suc (load toks)) (arg_list parse_num f toks)
    arg_list-Leaves zero toks h = absurd (omega (arith, h))
    arg_list-Leaves (suc f) toks h =
        Leaves-then (load toks) (suc (load toks)) (ternary parse_num f toks)
          (λ (e, rest). arg_rest parse_num f e rest) (ternary-Leaves f toks (omega (arith, h)))
          (λ e rest lt.
            Leaves-weaken (suc (load rest)) (suc (load toks)) (arg_rest parse_num f e rest)
              (omega (arith, lt)) (arg_rest-Leaves f e rest (omega (arith, h, lt))))

    arg_rest-Leaves :
        (f : ℕ) (e : Expr Num) (toks : List (Tok Num))
        → 20 * load toks + 1 ≤ f
        → Leaves (suc (load toks)) (arg_rest parse_num f e toks)
    arg_rest-Leaves zero e toks h = absurd (omega (arith, h))
    arg_rest-Leaves (suc f) e (Tok.rparen ∷ ts) h = omega arith
    arg_rest-Leaves (suc f) e (Tok.comma ∷ ts) h =
        Leaves-then (suc (load ts)) (suc (load (Tok.comma ∷ ts))) (arg_list parse_num f ts)
          (λ (args, rest). parsed (more e args, rest)) (arg_list-Leaves f ts (omega (arith, h)))
          (λ args rest lt. omega (arith, lt))
    arg_rest-Leaves (suc f) e toks h = tt

    parse_template-Ends :
        (f : ℕ) (raw : Bytes) → 20 * length raw + 1 ≤ f → Ends (parse_template parse_num f raw)
    parse_template-Ends zero raw h = absurd (omega (arith, h))
    parse_template-Ends (suc f) raw h = elim (Option-cases (find_embed raw)) [
      | inl e ↦ rw (parse_template, e) tt
      | inr ((before, after), e) ↦ elim (Option-cases (split_once b'}' after)) [
        | inl q ↦ rw (parse_template, e, q) tt
        | inr ((source, rest), q) ↦
            let short = length-find_embed raw before after e in
            let parts = length-split_once b'}' after source rest q in
            rw (parse_template, e, q)
              (Ends-then (parse parse_num f source)
                (λ x.
                  (parse_template parse_num f rest >>= λ xs.
                  parsed (with_text parse_num before (more x xs))))
                (parse-Ends f source (omega (arith, h, short, parts)))
                (λ x.
                  Ends-then (parse_template parse_num f rest)
                    (λ xs. parsed (with_text parse_num before (more x xs)))
                    (parse_template-Ends f rest (omega (arith, h, short, parts))) (λ xs. tt)))
      ]
    ]

    parse_params-Ends :
        (f : ℕ) (parts : List Bytes)
        → 20 * span parts + 1 ≤ f
        → Ends (parse_params parse_num f parts)
    parse_params-Ends zero parts h = absurd (omega (arith, h))
    parse_params-Ends (suc f) [] h = tt
    parse_params-Ends (suc f) (part ∷ parts) h = elim (Bool-cases (is_empty (trim part))) [
      | inl e ↦ rw (parse_params, e) (parse_params-Ends f parts (omega (arith, h)))
      | inr e ↦ elim (Option-cases (split_once b'=' (trim part))) [
        | inl q ↦ rw (parse_params, e, q) tt
        | inr ((name, value), q) ↦
            let sides = length-split_once b'=' (trim part) name value q in
            rw (parse_params, e, q)
              (Ends-then (parse parse_num f (trim value))
                (λ x. (parse_params parse_num f parts >>= λ xs. parsed (param (trim name) x xs)))
                (parse-Ends f (trim value)
                  (omega (arith, h, sides, length-trim value, length-trim part)))
                (λ x.
                  Ends-then (parse_params parse_num f parts) (λ xs. parsed (param (trim name) x xs))
                    (parse_params-Ends f parts (omega (arith, h))) (λ xs. tt)))
      ]
    ]

    parse_args-Ends :
        (f : ℕ) (parts : List Bytes) → 20 * span parts + 1 ≤ f → Ends (parse_args parse_num f parts)
    parse_args-Ends zero parts h = absurd (omega (arith, h))
    parse_args-Ends (suc f) [] h = tt
    parse_args-Ends (suc f) (part ∷ parts) h = elim (Bool-cases (is_empty (trim part))) [
      | inl e ↦ rw (parse_args, e) (parse_args-Ends f parts (omega (arith, h)))
      | inr e ↦
          rw (parse_args, e)
            (Ends-then (parse parse_num f (trim part))
              (λ x. (parse_args parse_num f parts >>= λ xs. parsed (more x xs)))
              (parse-Ends f (trim part) (omega (arith, h, length-trim part)))
              (λ x.
                Ends-then (parse_args parse_num f parts) (λ xs. parsed (more x xs))
                  (parse_args-Ends f parts (omega (arith, h))) (λ xs. tt)))
    ]

  -- Every text is parsed to an expression or refused with an error, given fuel of 20 for each of its bytes
  -- and 18 more: no chain of operators, nesting of parentheses or text within a text goes on for ever.
  pub parse-terminates :
      (s : Bytes) (f : ℕ) → 20 * length s + 18 ≤ f → parse parse_num f s ≢ exhausted
  parse-terminates s f h = Ends-not_exhausted (parse parse_num f s) (parse-Ends f s h)
