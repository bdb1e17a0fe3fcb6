-- ===== src/Operators/Registry.antt =====
-- src/operator_registry.cpp and src/nodes/operator_node.cpp: the table of the operators by domain and
-- name, and the node that runs one of them.
use omle_runtime.Prelude.{
  ℕ, ◌≡◌, ◌∙◌, ◌⊎◌, inl, inr, ◌++◌, All, true, false, Bool-cases, refl, ap, Option, none, some,
  List, [], ◌∷◌, String, Map, lookup, insert, same, str_append, lookup-insert,
}
use omle_runtime.Floats.{Floats}
use omle_runtime.Status.{fail, unknown_operator}
use omle_runtime.ValueStore.{ValueStore}
use omle_runtime.Ast.{AttributeMap}
use omle_runtime.Eval.{UserFunctionMap}
use omle_runtime.Executor.{GraphNode}
use omle_runtime.Operators.{Operator}

module _ ⦃fl : Floats⦄ where
  -- OperatorRegistry::table_
  abbrev pub OperatorTable : Type 0
  OperatorTable = Map Operator

  -- domain + "/" + op
  abbrev pub table_key : String → String → String
  table_key domain op = str_append domain (str_append "/" op)

  -- OperatorRegistry::reg
  unfoldable pub reg : String → String → Operator → OperatorTable → OperatorTable
  unfolding insert
  reg domain op fn table = insert (table_key domain op) fn table

  -- OperatorRegistry::find; `none` is the null pointer
  unfoldable pub find : String → String → OperatorTable → Option Operator
  unfolding lookup
  find domain op table = lookup (table_key domain op) table

  -- OperatorNode, with the names of GraphNode
  pub record OperatorNode : Type 0 where
    pub domain : String
    pub op : String
    pub in_names : List String
    pub out_names : List String
    pub attrs : AttributeMap

  abbrev pub run_found : OperatorNode → Option Operator → GraphNode
  run_found node (some fn) fns vs n_rows = fn node.in_names node.out_names node.attrs fns vs n_rows
  run_found node none fns vs n_rows =
      fail unknown_operator (str_append "unknown operator: " (table_key node.domain node.op))

  -- OperatorNode::execute
  unfoldable pub execute_operator : OperatorTable → OperatorNode → GraphNode
  unfolding find
  execute_operator table node fns vs n_rows =
      run_found node (find node.domain node.op table) fns vs n_rows

  -- Several registrations in order, as register_builtin_operators makes them.
  unfoldable pub register_all : List (String × String × Operator) → OperatorTable → OperatorTable
  unfolding reg
  register_all [] table = table
  register_all ((domain, op, fn) ∷ entries) table = register_all entries (reg domain op fn table)

  abbrev pub Entry : Type 0
  Entry = String × String × Operator

  -- The entry is registered under another key.
  abbrev pub Differs : String → Entry → Type 0
  Differs key (domain, op, fn) = same (table_key domain op) key ≡ false

  -- The operator stands in an entry under the key, and no entry behind it is under the key.
  pub record IsLast (entries : List Entry) (key : String) (fn : Operator) : Type 0 where
    pub before : List Entry
    pub after : List Entry
    pub domain : String
    pub op : String
    pub stands : entries ≡ before ++ ((domain, op, fn) ∷ after)
    pub under : same (table_key domain op) key ≡ true
    pub differ : All (Differs key) after

  find-register_all :
      (entries : List Entry) (domain op : String) (table : OperatorTable)
      → ((fn : Operator) × (find domain op (register_all entries table) ≡ some fn)
          × IsLast entries (table_key domain op) fn)
        ⊎ ((find domain op (register_all entries table) ≡ find domain op table)
            × All (Differs (table_key domain op)) entries)
  unfolding find register_all reg
  find-register_all [] domain op table = inr (refl, tt)
  find-register_all ((d, o, fn) ∷ entries) domain op table =
      elim (find-register_all entries domain op (insert (table_key d o) fn table)) [
        | inl (f, found, l) ↦ inl (
          f,
          found,
          record {
            before = (d, o, fn) ∷ l.before;
            after = l.after;
            domain = l.domain;
            op = l.op;
            stands = ap (λ es. (d, o, fn) ∷ es) l.stands;
            under = l.under;
            differ = l.differ;
          },
        )
        | inr (kept, all) ↦
            let here = lookup-insert (table_key d o) (table_key domain op) fn table in
            elim (Bool-cases (same (table_key d o) (table_key domain op))) [
              | inl e ↦ inl (
                fn,
                kept ∙ here ∙ (rw e refl),
                record {
                  before = [];
                  after = entries;
                  domain = d;
                  op = o;
                  stands = refl;
                  under = e;
                  differ = all;
                },
              )
              | inr e ↦ inr (kept ∙ here ∙ (rw e refl), (e, all))
            ]
      ]

  -- Where the table of operators is built by registrations into an empty one, a node runs an
  -- operator that is registered under the key of its domain and name and behind which none is, or
  -- none is registered under that key and the node returns UnknownOperator with the text of both.
  pub execute_operator-registered :
      (entries : List Entry) (node : OperatorNode) (fns : UserFunctionMap) (vs : ValueStore)
      (n_rows : ℕ)
      → ((fn : Operator) × IsLast entries (table_key node.domain node.op) fn
          × (execute_operator (register_all entries []) node fns vs n_rows
              ≡ fn node.in_names node.out_names node.attrs fns vs n_rows))
        ⊎ (All (Differs (table_key node.domain node.op)) entries
            × (execute_operator (register_all entries []) node fns vs n_rows
                ≡ fail unknown_operator (
                    str_append "unknown operator: "
                      (str_append node.domain (str_append "/" node.op)))))
  unfolding execute_operator find
  execute_operator-registered entries node fns vs n_rows =
      elim (find-register_all entries node.domain node.op []) [
        | inl (fn, found, l) ↦ inl (fn, l, ap (λ o. run_found node o fns vs n_rows) found)
        | inr (kept, all) ↦ inr (all, ap (λ o. run_found node o fns vs n_rows) kept)
      ]
