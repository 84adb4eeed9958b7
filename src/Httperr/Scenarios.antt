-- ===== src/Httperr/Scenarios.antt =====
-- A problem document behind a response that has started.
use nina.Prelude.{same_str}
use nina.Prelude.{◌≡◌, refl, some, none, [], ◌++◌, lit}
use nina.Http.Writing.{Writer, act_all}
use nina.Httperr.{Rendering, problem, write_problem}
use nina.Httperr.Started.{write_problem-started}

abbrev pub plain : Rendering
plain = record { marshal = λ p. some p.title; status_text = λ n. lit "Status" }

abbrev begun : Writer
begun = record { header = []; sent = some (200, []); body = lit "half a " }

write_problem-started_example :
    let after = act_all begun (write_problem plain none (problem 500 (lit "failure") [])) in
    (after.sent ≡ some (200, [])) × (after.body ≡ begun.body ++ lit "failure")
unfolding lit same_str
write_problem-started_example =
    write_problem-started plain none (problem 500 (lit "failure") []) begun 200 [] (lit "failure")
      refl refl
