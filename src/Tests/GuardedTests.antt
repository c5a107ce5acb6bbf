-- ===== src/Tests/GuardedTests.antt =====
-- The first risk of the fixtures, sent in four requests with an underwriter's token.
use ktayl_underwriting.Prelude.{◌≡◌, refl, false, [], ◌∷◌}
use ktayl_underwriting.System.Run.{seed}
use ktayl_underwriting.System.Secured.{
  post_submission, post_assess, post_quote, post_bind, serve_all,
}
use ktayl_underwriting.System.Flow.Served.{IsServed}
use ktayl_underwriting.System.Flow.FirstRisk.{migrated, first-IsOpen}
use ktayl_underwriting.System.Flow.Guarded.{serve_all-IsServed}
use ktayl_underwriting.Tests.Fixtures.{env, client, publisher, payload}
use ktayl_underwriting.Tests.ViewTests.{env-IsFair}
use ktayl_underwriting.Tests.AuthTests.{url, decode, header, is_authorised}
use ktayl_underwriting.Tests.FlowTests.{payload-IsWithinAppetite, client-IsWilling}

serve_all-IsServed_example :
    (f : IsServed env client
      (publisher false)
      payload
      "jo@example.com"
      (seed env (migrated env))
      [])
    × (serve_all env client
          (publisher false)
          url
          decode
          0
          (post_submission header payload
            ∷ post_assess header f.submission.id
            ∷ post_quote header f.submission.id
            ∷ post_bind header f.submission.id
            ∷ [])
          (seed env (migrated env), [])
        ≡ (f.db4, f.world))
serve_all-IsServed_example =
    serve_all-IsServed env client (publisher false) url decode header "jo@example.com" refl
      is_authorised 0 payload (seed env (migrated env)) [] env-IsFair payload-IsWithinAppetite
      (first-IsOpen env) client-IsWilling
