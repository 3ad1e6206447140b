-- ===== src/Names/Tests.antt =====
-- Runs of engine/src/hopeit/server/names.py.
use hopeit_engine.Common.{split, map, ◌≡◌, refl, some, [], ◌∷◌}
use hopeit_engine.Names.Parts.{split-auto_path}
use hopeit_engine.Names.{path_part, auto_path, route_name, module_name, titlecase}

auto_path_test :
    auto_path ("simple-example" ∷ "1.0" ∷ "saveSomething" ∷ [])
    ≡ "simple_example.1x0.save_something"
unfolding auto_path
auto_path_test = refl

route_name_test : route_name ("api" ∷ "simple_example" ∷ "1.0" ∷ []) ≡ "/api/simple-example/1x0"
unfolding route_name
route_name_test = refl

module_name_test :
    module_name ("simple-example" ∷ "streams.ProcessEvents" ∷ [])
    ≡ "simple_example.streams._process_events"
unfolding module_name
module_name_test = refl

titlecase_test : titlecase "track.requestId" ≡ some "Track Request Id"
unfolding titlecase
titlecase_test = refl

split-auto_path_example :
    split b'.' (auto_path ("my.app" ∷ "1.0" ∷ [])) ≡ map path_part ("my.app" ∷ "1.0" ∷ [])
split-auto_path_example = split-auto_path "my.app" ("1.0" ∷ [])
