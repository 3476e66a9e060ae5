-- ===== src/Extractor/Tests.antt =====
-- Runs of pkg/monetdroid/extractor.go.
use monetdroid.Prelude.{◌≡◌, refl, [], ◌∷◌, ◌++◌, codes}
use mathlib.Core.List.{flatten}
use monetdroid.Extractor.{new_extractor, classify, ended, ran, packaged, nothing, ingest}
use monetdroid.Extractor.Chunks.{ingest_all, ingest_all-flatten}

end_line :
    classify (codes "    --- PASS: TestA/b (x) (0.05s)")
    ≡ ended (record { name = codes "TestA/b (x)"; status = codes "PASS"; duration = codes "0.05" })
unfolding classify
end_line = refl

run_line : classify (codes "=== RUN   TestA") ≡ ran
unfolding classify
run_line = refl

pkg_line :
    classify (codes "ok  \tm/pkg\t0.5s")
    ≡ packaged (record { name = codes "m/pkg"; status = codes "ok" })
unfolding classify
pkg_line = refl

plain_line : classify (codes "ok") ≡ nothing
unfolding classify
plain_line = refl

-- The line of a test is cut in two.
ingest_all-flatten_example :
    ingest_all new_extractor
      (codes "=== RU" ∷ codes "N Test\n--- PA" ∷ codes "SS: Test (0.1s)\n" ∷ [])
    ≡ ingest new_extractor
        (codes "=== RU" ++ flatten (codes "N Test\n--- PA" ∷ codes "SS: Test (0.1s)\n" ∷ []))
ingest_all-flatten_example =
    ingest_all-flatten new_extractor (codes "=== RU")
      (codes "N Test\n--- PA" ∷ codes "SS: Test (0.1s)\n" ∷ [])
