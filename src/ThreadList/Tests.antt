-- ===== src/ThreadList/Tests.antt =====
-- A list of two threads, and one that is on no list, put through src/kern/thread/threadlist.c.
use ed_operating_system.Prelude.{refl, none, some, [], ◌∷◌, ◌==◌, if◌then◌else◌, Returns, arith}
use ed_operating_system.ThreadList.{Memory, ThreadList, node_init, remove}
use ed_operating_system.ThreadList.Chains.{Without}
use ed_operating_system.ThreadList.Nodes.{IsLoose}
use ed_operating_system.ThreadList.Laws.{IsList, nodes, RemovePost}
use ed_operating_system.ThreadList.Removing.{remove_lem}

abbrev two : ThreadList
two = record { head = 100; tail = 101; count = 2 }

-- Threads 7 and 9 are on the list, the others on none.
abbrev memory : Memory
memory n =
    if n == 100
    then record { prev = none; next = some 7; self = none }
    else if n == 7
    then record { prev = some 100; next = some 9; self = some 7 }
    else if n == 9
    then record { prev = some 7; next = some 101; self = some 9 }
    else if n == 101
    then record { prev = some 9; next = none; self = none }
    else node_init n

two-IsList : IsList memory two (7 ∷ 9 ∷ [])
two-IsList = record {
  chain = record {
    first = refl;
    linked = (refl, refl, (refl, refl, (refl, refl, refl)));
    distinct = (
      (λ e. omega arith, (λ e. omega arith, (λ e. omega arith, tt))),
      ((λ e. omega arith, (λ e. omega arith, tt)), ((λ e. omega arith, tt), (tt, tt))),
    );
  };
  selves = (refl, (refl, tt));
  small = omega arith;
  count = refl;
}

eight-IsLoose : IsLoose memory 8
eight-IsLoose = record { prev = refl; next = refl; self = refl }

eight-Without : Without 8 (nodes two (7 ∷ 9 ∷ []))
eight-Without = (λ e. omega arith, (λ e. omega arith, (λ e. omega arith, (λ e. omega arith, tt))))

remove_lem_example :
    Returns (λ r. RemovePost two (7 ∷ []) [] memory 9 (r.1, r.2)) (remove memory two 9)
remove_lem_example = remove_lem memory two (7 ∷ []) 9 [] two-IsList
