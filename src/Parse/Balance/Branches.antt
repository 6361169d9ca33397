-- ===== src/Parse/Balance/Branches.antt =====
-- `if` and `while` leave the numbers of scopes as they are.
use cript.Hash.{HashNode}
use cript.Parse.Balance.{
  IsBalanced, both, either, balanced, move, stay, step, pure-IsBalanced, require-IsBalanced,
  lift-IsBalanced, peaking_value-IsBalanced, function_stack_top-IsBalanced,
  set_current_bb-IsBalanced, change_at-IsBalanced, peak-IsBalanced, next-IsBalanced,
}
use cript.Parse.Balance.Scopes.{
  find-IsBalanced, push_scope-Moves, prepend_scope-Moves, unlink_scope-Moves, join_scope-Moves,
  pop_scope-Moves, changed_scope, FitsScope-insert,
}
use cript.Parse.Balance.Literals.{reserved_word-IsBalanced}
use cript.Parse.Balance.Operators.{new_basic_block-IsBalanced}
use cript.Parse.Branches.{
  current_block, then_loop, else_only, both_changed, else_loop, then_only, no_else_loop,
  body_loop_moves, end_loop_moves, condition, then_branch, else_branch, without_else, else_ahead,
  if_else_stmt, while_body, while_stmt,
}
use cript.Parse.Scopes.{insert_into_scope}
use cript.Parse.{Services, Parser, ◌>>=◌, set_top, function_stack_top}
use cript.Prelude.{ℕ, List, [], ◌∷◌}
use cript.Table.{TableOps}

module _ {T P : Type 0} ⦃ops : TableOps T⦄ where
  current_block-IsBalanced : IsBalanced {T = T} {P = P} current_block
  unfolding current_block
  current_block-IsBalanced = both function_stack_top-IsBalanced (λ f. (pure-IsBalanced _))

  then_loop-IsBalanced :
      (nodes : List HashNode) (tables : T × T) → IsBalanced {T = T} {P = P} (then_loop nodes tables)
  unfolding then_loop
  then_loop-IsBalanced [] tables = (pure-IsBalanced _)
  then_loop-IsBalanced (node ∷ nodes) (original, newer) =
      both (find-IsBalanced _) (λ reg. then_loop-IsBalanced nodes _)

  inserted-IsBalanced :
      (key reg : ℕ)
      → IsBalanced {T = T} {P = P} (
          function_stack_top >>= λ f.
          set_top (record f { scope = insert_into_scope f.scope key reg }))
  unfolding function_stack_top set_top ◌>>=◌
  inserted-IsBalanced key reg = record {
    run = λ s p fit.
        changed_scope p s.top.scope _ s.top.outer _
          (λ m h. FitsScope-insert m s.top.scope key reg h) fit;
  }

  else_only-IsBalanced :
      (then_bb : ℕ) (node : HashNode) → IsBalanced {T = T} {P = P} (else_only then_bb node)
  unfolding else_only
  else_only-IsBalanced then_bb node = both (lift-IsBalanced _) (λ inner.
      both (find-IsBalanced _)
        (λ outer. both (change_at-IsBalanced _ _) (λ _. inserted-IsBalanced node.key inner)))

  else_loop-IsBalanced :
      (then_bb else_bb : ℕ) (nodes : List HashNode) (newer : T)
      → IsBalanced {T = T} {P = P} (else_loop then_bb else_bb nodes newer)
  unfolding else_loop both_changed
  else_loop-IsBalanced then_bb else_bb [] newer = (pure-IsBalanced _)
  else_loop-IsBalanced then_bb else_bb (node ∷ nodes) newer =
      either _
        (both (else_only-IsBalanced then_bb node)
          (λ _. else_loop-IsBalanced then_bb else_bb nodes newer))
        (both
          (both (lift-IsBalanced _) (λ rd.
            both (lift-IsBalanced _)
              (λ rs. both (change_at-IsBalanced _ _) (λ _. (pure-IsBalanced _)))))
          (λ newer'. else_loop-IsBalanced then_bb else_bb nodes newer'))

  then_only-IsBalanced :
      (else_bb : ℕ) (nodes : List HashNode) → IsBalanced {T = T} {P = P} (then_only else_bb nodes)
  unfolding then_only
  then_only-IsBalanced else_bb [] = (pure-IsBalanced _)
  then_only-IsBalanced else_bb (node ∷ nodes) = both (lift-IsBalanced _) (λ inner.
      both (find-IsBalanced _)
        (λ outer. both (change_at-IsBalanced _ _) (λ _. then_only-IsBalanced else_bb nodes)))

  no_else_loop-IsBalanced :
      (else_bb : ℕ) (original : T) (nodes : List HashNode)
      → IsBalanced {T = T} {P = P} (no_else_loop else_bb original nodes)
  unfolding no_else_loop
  no_else_loop-IsBalanced else_bb original [] = (pure-IsBalanced _)
  no_else_loop-IsBalanced else_bb original (node ∷ nodes) = both (lift-IsBalanced _) (λ inner.
      both (lift-IsBalanced _) (λ outer.
        both (either _ (pure-IsBalanced _) (change_at-IsBalanced _ _))
          (λ _. no_else_loop-IsBalanced else_bb original nodes)))

  body_loop_moves-IsBalanced :
      (body_bb : ℕ) (nodes : List HashNode) (newer : T)
      → IsBalanced {T = T} {P = P} (body_loop_moves body_bb nodes newer)
  unfolding body_loop_moves
  body_loop_moves-IsBalanced body_bb [] newer = (pure-IsBalanced _)
  body_loop_moves-IsBalanced body_bb (node ∷ nodes) newer = both (find-IsBalanced _) (λ old.
      both (lift-IsBalanced _)
        (λ rs. both (change_at-IsBalanced _ _) (λ _. body_loop_moves-IsBalanced body_bb nodes _)))

  end_loop_moves-IsBalanced :
      (end_bb : ℕ) (nodes : List HashNode)
      → IsBalanced {T = T} {P = P} (end_loop_moves end_bb nodes)
  unfolding end_loop_moves
  end_loop_moves-IsBalanced end_bb [] = (pure-IsBalanced _)
  end_loop_moves-IsBalanced end_bb (node ∷ nodes) = both (find-IsBalanced _) (λ reg.
      both (lift-IsBalanced _)
        (λ rs. both (change_at-IsBalanced _ _) (λ _. end_loop_moves-IsBalanced end_bb nodes)))

module _ {T P : Type 0} ⦃ops : TableOps T⦄ (env : Services T P) {expr : Parser T P ℕ}
    {statement : Parser T P (Unit {0})} (even : IsBalanced expr)
    (level : IsBalanced statement) where
  condition-IsBalanced : IsBalanced (condition env expr statement)
  unfolding condition
  condition-IsBalanced = both (next-IsBalanced env) (λ bracket. both (require-IsBalanced _) (λ _.
      both even (λ reg.
        both (next-IsBalanced env)
          (λ close. both (require-IsBalanced _) (λ _. (pure-IsBalanced _))))))

  -- The scope of a branch is closed after its changes have been read.
  then_branch-IsBalanced : (start : ℕ) → IsBalanced (then_branch env expr statement start)
  unfolding then_branch
  then_branch-IsBalanced start = balanced (λ n ns. step (set_current_bb-IsBalanced start) (λ _.
      move (push_scope-Moves n ns) (λ _. step level (λ _. step current_block-IsBalanced (λ bb.
        move (unlink_scope-Moves n ns) (λ scope. step (then_loop-IsBalanced _ _) (λ tables.
          move (prepend_scope-Moves scope n ns)
            (λ _. move (join_scope-Moves env n ns) (λ _. stay (pure-IsBalanced _))))))))))

  else_branch-IsBalanced :
      (then_bb start : ℕ) (newer : T)
      → IsBalanced (else_branch env expr statement then_bb start newer)
  unfolding else_branch
  else_branch-IsBalanced then_bb start newer = balanced (λ n ns. step (next-IsBalanced env) (λ tok.
      step (set_current_bb-IsBalanced start) (λ _. move (push_scope-Moves n ns) (λ _.
        step level (λ _. step current_block-IsBalanced (λ bb.
          move (unlink_scope-Moves n ns) (λ scope.
            step (else_loop-IsBalanced then_bb bb _ newer) (λ newer'.
              step (then_only-IsBalanced bb _) (λ _.
                move (prepend_scope-Moves scope n ns)
                  (λ _. move (pop_scope-Moves env n ns) (λ _. stay (pure-IsBalanced _))))))))))))

  pub if_else_stmt-IsBalanced : IsBalanced (if_else_stmt env expr statement)
  unfolding if_else_stmt else_ahead without_else
  if_else_stmt-IsBalanced = both (reserved_word-IsBalanced env _) (λ _.
      both condition-IsBalanced (λ reg. both current_block-IsBalanced (λ start.
        both (new_basic_block-IsBalanced _) (λ then_start.
          both (then_branch-IsBalanced then_start) (λ then_end.
            both (new_basic_block-IsBalanced _) (λ else_start. both (change_at-IsBalanced _ _) (λ _.
              both (peak-IsBalanced env) (λ tok.
                both
                  (either _
                    (both peaking_value-IsBalanced
                      (λ literal. both (find-IsBalanced literal) (λ r. (pure-IsBalanced _))))
                    (pure-IsBalanced _))
                  (λ has_else.
                    both
                      (either has_else (else_branch-IsBalanced _ else_start _)
                        (both (no_else_loop-IsBalanced else_start _ _) (λ _. (pure-IsBalanced _))))
                      (λ else_end. both (new_basic_block-IsBalanced _) (λ end.
                        both (change_at-IsBalanced _ _) (λ _.
                          both (change_at-IsBalanced _ _)
                            (λ _. set_current_bb-IsBalanced end)))))))))))))

  while_body-IsBalanced :
      (cond_end start : ℕ) → IsBalanced (while_body env expr statement cond_end start)
  unfolding while_body
  while_body-IsBalanced cond_end start = balanced (λ n ns.
      step (set_current_bb-IsBalanced start) (λ _. move (push_scope-Moves n ns) (λ _.
        step level (λ _. step current_block-IsBalanced (λ bb.
          move (unlink_scope-Moves n ns) (λ scope. step (new_basic_block-IsBalanced _) (λ end.
            step (body_loop_moves-IsBalanced bb _ _) (λ newer.
              move (prepend_scope-Moves scope n ns) (λ _. move (join_scope-Moves env n ns) (λ _.
                step (end_loop_moves-IsBalanced end _) (λ _. stay (pure-IsBalanced _))))))))))))

  pub while_stmt-IsBalanced : IsBalanced (while_stmt env expr statement)
  unfolding while_stmt
  while_stmt-IsBalanced = both (reserved_word-IsBalanced env _) (λ _.
      both (new_basic_block-IsBalanced _) (λ start. both current_block-IsBalanced (λ before.
        both (change_at-IsBalanced _ _) (λ _. both (set_current_bb-IsBalanced start) (λ _.
          both condition-IsBalanced (λ reg. both current_block-IsBalanced (λ cond_end.
            both (new_basic_block-IsBalanced _) (λ body.
              both (while_body-IsBalanced cond_end body) (λ ends.
                both (change_at-IsBalanced _ _) (λ _.
                  both (change_at-IsBalanced _ _) (λ _. set_current_bb-IsBalanced ends.1)))))))))))
