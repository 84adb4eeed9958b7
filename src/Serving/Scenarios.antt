-- ===== src/Serving/Scenarios.antt =====
-- One served route, and requests that it takes, that no route takes, and that the guard blocks.
use nina.Reqctx.{parse_cidrs}
use nina.Scanguard.Guard.{miss}
use nina.Scanguard.Guard.{blocked}
use nina.Scanguard.Guard.{key}
use nina.Scanguard.Guard.{normalise}
use nina.Router.{match}
use nina.Router.{walk}
use nina.Router.{split_path}
use nina.Router.{add_at}
use nina.Router.{param_name}
use nina.Router.{register}
use nina.Router.{static_child}
use nina.Router.{set_static, entry_for, path_unescape, zip_params}
use nina.Prelude.{
  arith, to_upper, insert_by, join, sort_by, sort_strings, split, str_lt, strip_last, trim,
  trim_left, trim_right,
}
use nina.Prelude.Map.{insert, lookup}
use nina.Scanguard.Guard.{mask_bytes, net_contains, same_bytes}
use nina.Prelude.{same_str}
use nina.Prelude.{
  ◌+◌, ◌≡◌, refl, true, false, none, some, [], ◌∷◌, ◌++◌, ℕ, Str, lit, inr, length, is_some, ltb,
  if◌then◌else◌,
}
use nina.Http.Writing.{write_header, write, act_all, on_the_wire, fresh_writer}
use nina.Router.{add, empty_router}
use nina.RouteTable.Build.{Route, Backend}
use nina.Scanguard.Guard.{v4, Net, Guard, Store}
use nina.Reqctx.{Request}
use nina.Httperr.{Rendering}
use nina.Serving.{BoundRoute, Running, Handler, panicked, record_all, new_recorder}
use nina.Serving.Recording.{record_all-tells, record_all-informational}
use nina.Serving.Serve.{World, serve_on, with_match}
use nina.Serving.Reload.{Server, Building, config_stage, reload, reload-fails, dropped, built_by}
use nina.Serving.Answers.{
  Refused, refused_code, left_after, out_of, serve_on-refuses, first_info, guarded, greeted,
}
use nina.Serving.Handling.{Handled, serve_on-handles}

record_all-tells_example :
    let rec =
      record_all
        (new_recorder fresh_writer)
        (write (lit "ab") ∷ write_header 500 ∷ write (lit "c") ∷ []) in
    (rec.writer ≡ act_all fresh_writer (write (lit "ab") ∷ write_header 500 ∷ write (lit "c") ∷ []))
    × (rec.status ≡ (on_the_wire rec.writer).0)
    × (rec.wrote ≡ is_some rec.writer.sent)
    × (rec.bytes ≡ length rec.writer.body)
record_all-tells_example =
    record_all-tells fresh_writer (write (lit "ab") ∷ write_header 500 ∷ write (lit "c") ∷ [])
      (tt, (refl, (tt, tt))) refl refl

record_all-informational_example :
    ((on_the_wire
        (record_all
          (new_recorder fresh_writer)
          (write_header 103 ∷ write_header 404 ∷ [])).writer).0
      ≡ 200)
    × ((on_the_wire (act_all fresh_writer (write_header 103 ∷ write_header 404 ∷ []))).0 ≡ 404)
    × ((record_all (new_recorder fresh_writer) (write_header 103 ∷ write_header 404 ∷ [])).status
        ≡ 103)
record_all-informational_example = record_all-informational 103 404 refl (omega arith)

abbrev plain : Rendering
plain = record { marshal = λ p. some p.title; status_text = λ n. lit "Status" }

abbrev no_net : Net
no_net = record {
  parse_ip = λ s. some (v4 s);
  parse_cidr = λ s. none;
  print_ip = λ ip. lit "x";
  print_int = λ n. [];
}

-- Three misses, of any client, block everyone.
abbrev three_misses : Store
three_misses = record {
  State = ℕ;
  banned_for = λ now k n. (n, some (if ltb n 3 then 0 else 1500000000));
  miss = λ now k window n. (n + 1, some 0);
  ban = λ now k reason path base longest n. (n, none);
  unban = λ now k n. (n, none);
}

abbrev guard : Guard
guard = record {
  max_misses = 3;
  window = 100;
  ban = 60;
  max_ban = 600;
  traps = [];
  allow = [];
  v6_prefix = 64;
}

abbrev users : Backend
users = record { name = lit "users"; namespace = lit "Users"; strip = []; timeout = 0 }

abbrev route : Route
route = record {
  method = lit "GET";
  gateway_path = lit "/a";
  id = lit "getA";
  backend = users;
  upstream_path = lit "/a";
  upstream_id = lit "getA";
  middleware = [];
  timeout = 0;
  allowed_methods = [];
  hidden = false;
}

-- Counts in its state, and panics before it writes.
abbrev panics : Handler ℕ
panics now r info n = record { actions = []; outcome = panicked; info = info; state = n + 1 }

abbrev bound : BoundRoute ℕ
bound = record { route = route; handler = panics }

abbrev running : Running ℕ
running = record {
  router = (add (lit "GET") (lit "/a") bound empty_router).0;
  scan_guard = some guard;
}

abbrev request : Str → Str → Request
request method path = record {
  method = method;
  path = path;
  escaped_path = path;
  peer = some (lit "7");
  remote_addr = lit "7:1";
  query = [];
  header = [];
}

abbrev Here : Type 0
Here = World plain no_net three_misses ℕ

abbrev at_misses : ℕ → Here
at_misses n = record { bans = n; state = 0 }

serve_on-refuses_example :
    Refused plain no_net three_misses ℕ
      (refused_code plain no_net three_misses ℕ [] running 5 []
        (request (lit "GET") (lit "/b"))
        (at_misses 1))
      (left_after plain no_net three_misses ℕ [] running 5 []
        (request (lit "GET") (lit "/b"))
        (at_misses 1))
      (at_misses 1)
      (out_of plain no_net three_misses ℕ [] running 5 []
        (request (lit "GET") (lit "/b"))
        (at_misses 1))
unfolding match walk split_path lit add add_at empty_router param_name register static_child
    set_static same_str
serve_on-refuses_example =
    serve_on-refuses plain no_net three_misses ℕ [] running 5 [] (request (lit "GET") (lit "/b"))
      (at_misses 1) (inr refl)

unknown_path :
    refused_code plain no_net three_misses ℕ [] running 5 []
      (request (lit "GET") (lit "/b"))
      (at_misses 1)
    ≡ 404
unfolding blocked same_str key normalise lit match walk split_path add add_at empty_router
    param_name register static_child set_static
unknown_path = refl

other_method :
    refused_code plain no_net three_misses ℕ [] running 5 []
      (request (lit "PUT") (lit "/a"))
      (at_misses 1)
    ≡ 405
unfolding blocked same_str key normalise lit match walk split_path add add_at empty_router
    param_name register static_child set_static
other_method = refl

blocked_client :
    refused_code plain no_net three_misses ℕ [] running 5 []
      (request (lit "GET") (lit "/a"))
      (at_misses 3)
    ≡ 429
unfolding blocked same_str key normalise lit
blocked_client = refl

one_more_miss :
    left_after plain no_net three_misses ℕ [] running 5 []
      (request (lit "GET") (lit "/b"))
      (at_misses 1)
    ≡ 2
unfolding blocked same_str key normalise lit match walk split_path add add_at empty_router
    param_name register static_child set_static miss
one_more_miss = refl

serve_on-handles_example :
    let r = request (lit "GET") (lit "/a") in
    let w = at_misses 0 in
    let info = first_info plain no_net three_misses ℕ [] running 5 [] r w in
    let ran = panics 5 r (with_match plain no_net three_misses ℕ bound [] info) 0 in
    Handled plain no_net three_misses ℕ ran
      (act_all (greeted plain no_net three_misses ℕ [] running 5 [] r w) ran.actions)
      (guarded plain no_net three_misses ℕ [] running 5 [] r w).0
      (serve_on plain no_net three_misses ℕ [] running 5 [] r w)
unfolding blocked same_str key normalise lit match walk split_path add add_at empty_router
    param_name register static_child set_static entry_for to_upper insert lookup insert_by join
    sort_by sort_strings split str_lt strip_last trim trim_left trim_right path_unescape zip_params
    mask_bytes net_contains same_bytes
serve_on-handles_example =
    serve_on-handles plain no_net three_misses ℕ [] running 5 [] (request (lit "GET") (lit "/a"))
      (at_misses 0) bound [] refl refl tt

-- A runtime is its generation; every configuration builds, and none has networks that parse.
abbrev building : Building ℕ ℕ
building = record {
  build = λ c n. some n;
  trusted_cidrs = λ c. lit "/" ∷ [];
  max_body_of = λ c. 0;
  net = no_net;
  parse_cidr = λ s. none;
}

abbrev server : Server ℕ
server = record {
  current = some 1;
  settings = record { trusted_proxies = []; max_body = 0 };
  generation = 1;
  ready = true;
  drain_grace = 30;
  retired = [];
}

reload-fails_example :
    let s' = (reload building (some 7) server).0 in
    (s'.current ≡ some 1)
    × (s'.settings ≡ server.settings)
    × (s'.ready ≡ true)
    × (s'.retired ≡ dropped building (built_by building (some 7) 2) ++ [])
unfolding reload parse_cidrs lit
reload-fails_example = reload-fails building (some 7) server config_stage refl
