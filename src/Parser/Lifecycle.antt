-- ===== src/Parser/Lifecycle.antt =====
-- Initialize on every branch, and what can be done with the object after it.
use gst_vk_video_parser.Prelude.{
  ℕ, ◌-◌, ◌≡◌, ◌⊎◌, refl, inl, inr, ap, ◌∙◌, sym, Bool, true, false, [], Option, none, some, arith,
  Bool-cases, Option-cases, ◌==◌, some_eq,
}
use gst_vk_video_parser.Parser.{
  InitParams, VkResult, success, initialization_failed, api_version, DecoderParser, with_pipeline,
  start, initialize, deinitialize, release,
}
use gst_vk_video_parser.Parser.Pipeline.{
  Gstreamer, Codec, decode_h264, decode_h265, other_codec, VideoParser, Playing, new_parser,
  build_codec, build, link, delete_parser,
}
use gst_vk_video_parser.Parser.Parse.{Plays}

module _ (g : Gstreamer) where
  -- The requests that Initialize passes on to the pipeline: the interface version is the library's,
  -- there is a client, and GStreamer starts.
  pub record IsRequest (params : Option InitParams) : Type 0 where
    pub given : InitParams
    pub is_given : params ≡ some given
    pub version : given.interface_version ≡ api_version
    pub client : ℕ
    pub is_client : given.client ≡ some client
    pub starts : g.init_check ≡ true

  initialize-start :
      (d : DecoderParser g) (params : Option InitParams) (r : IsRequest params)
      → initialize g d params ≡ start g d r.client r.given.out_of_band_picture_parameters
  unfolding initialize
  initialize-start d params r =
      let same : (r.given.interface_version == api_version) ≡ true = ground (arith, r.version) in
      rw r.is_given (rw same (rw r.is_client (rw r.starts refl)))

  -- Initialize succeeds, and the pipeline plays for the client, the codec and the choice of
  -- out-of-band parameters of the request.
  pub record Started (d : DecoderParser g) (params : Option InitParams) (r : IsRequest params)
      : Type 0 where
    pub video : VideoParser g
    pub result : initialize g d params ≡ some (success, record d { parser = some video })
    pub plays :
        Plays g video (g.new_harness r.client d.codec r.given.out_of_band_picture_parameters)

  build_codec-link :
      (c : Codec) (p : VideoParser g)
      → (c ≡ decode_h264) ⊎ (c ≡ decode_h265)
      → g.has_decoder c ≡ true
      → build_codec g c p ≡ some (link g p)
  unfolding build_codec
  build_codec-link decode_h264 p known exists = rw exists
  build_codec-link decode_h265 p known exists = rw exists
  build_codec-link other_codec p known exists = ground arith

  build_codec-other :
      (c : Codec) (p : VideoParser g) → c ≡ other_codec → build_codec g c p ≡ some (false, p)
  unfolding build_codec
  build_codec-other decode_h264 p e = absurd (cc)
  build_codec-other decode_h265 p e = absurd (cc)
  build_codec-other other_codec p e = refl

  -- A pipeline that could not be built is as the constructor left it.
  build_codec-failed :
      (c : Codec) (p q : VideoParser g) → build_codec g c p ≡ some (false, q) → q ≡ p
  unfolding build_codec link
  build_codec-failed decode_h264 p q e = ground arith
  build_codec-failed decode_h265 p q e = ground arith
  build_codec-failed other_codec p q e = cc

  -- The destructor reads the two pointers that Build has not set.
  deinitialize-crash :
      (d : DecoderParser g) (p : VideoParser g)
      → d.parser ≡ some p
      → p.playing ≡ none
      → deinitialize g d ≡ none
  unfolding deinitialize delete_parser
  deinitialize-crash d p has unset = rw (has, deinitialize) (rw (unset, delete_parser) refl)

  with_pipeline-failed :
      (d after : DecoderParser g) (r : Option (Bool × VideoParser g))
      → with_pipeline g d r ≡ some (initialization_failed, after)
      → (q : VideoParser g) × (r ≡ some (false, q)) × (after.parser ≡ some q)
  unfolding with_pipeline
  with_pipeline-failed d after none e = absurd (cc)
  with_pipeline-failed d after (some (true, q)) e = absurd (cc)
  with_pipeline-failed d after (some (false, q)) e =
      (q, refl, ap (λ (s : VkResult × DecoderParser g). s.1.parser) (sym (some_eq e)))

  -- For a request on H.264 or H.265 whose decoder element exists and whose elements link, Initialize
  -- succeeds, and the pipeline plays for the request's client and choice of out-of-band parameters,
  -- and for the object's codec.
  pub initialize-Started :
      (d : DecoderParser g) (params : Option InitParams) (r : IsRequest params)
      → (d.codec ≡ decode_h264) ⊎ (d.codec ≡ decode_h265)
      → g.has_decoder d.codec ≡ true
      → g.links d.codec ≡ true
      → Started d params r
  unfolding start build new_parser link with_pipeline
  initialize-Started d params r known exists links =
      let p = new_parser g r.client d.codec r.given.out_of_band_picture_parameters in
      let started : Playing g = record {
        harness = g.new_harness r.client d.codec r.given.out_of_band_picture_parameters;
        bus = [];
      } in
      let linked : link g p ≡ (true, record p { playing = some started }) = rw links in
      record {
        video = record p { playing = some started };
        result =
            initialize-start d params r
            ∙ ap (with_pipeline g d) (build_codec-link d.codec p known exists ∙ ap some linked);
        plays = record { state = started; is_playing = refl; has_harness = refl };
      }

  initialize-same :
      (d after : DecoderParser g)
      → ◌≡◌ {A = Option (VkResult × DecoderParser g)}
          (some (initialization_failed, d))
          (some (initialization_failed, after))
      → after ≡ d
  initialize-same d after e = cc

  -- What a failed Initialize leaves: the object as it was, where the request is not passed on; else the
  -- object with a pipeline that was not built, on which Deinitialize crashes.
  pub record NotBuilt (d after : DecoderParser g) : Type 0 where
    pub video : VideoParser g
    pub kept : after ≡ record d { parser = some video }
    pub not_built : video.playing ≡ none
    pub crashes : deinitialize g after ≡ none

  start-NotBuilt :
      (d after : DecoderParser g) (client : ℕ) (oob : Bool)
      → start g d client oob ≡ some (initialization_failed, after)
      → NotBuilt d after
  unfolding start build new_parser with_pipeline
  start-NotBuilt d after client oob e =
      let p = new_parser g client d.codec oob in
      let (q, built, has) = with_pipeline-failed d after (build_codec g d.codec p) e in
      let unset : q.playing ≡ none =
        ap (λ (v : VideoParser g). v.playing) (build_codec-failed d.codec p q built) in
      record {
        video = q;
        kept =
            ap (λ (s : VkResult × DecoderParser g). s.1)
              (some_eq (sym e ∙ ap (with_pipeline g d) built));
        not_built = unset;
        crashes = deinitialize-crash after q has unset;
      }

  given-is : (params : InitParams) (r : IsRequest (some params)) → params ≡ r.given
  given-is params r = some_eq r.is_given

  -- Where Initialize fails on a request that it does not pass on (no parameters, another interface
  -- version, no client, or a GStreamer that does not start), it left the object as it was; where it fails
  -- on a request that it passes on, the object keeps a pipeline that was not built, and Deinitialize
  -- crashes on it.
  pub initialize_failed :
      (d after : DecoderParser g) (params : Option InitParams)
      → initialize g d params ≡ some (initialization_failed, after)
      → ((¬ IsRequest params) × (after ≡ d)) ⊎ (IsRequest params × NotBuilt d after)
  unfolding initialize
  initialize_failed d after none e = inl ((λ r. absurd (none_given r.is_given)), cc)
    where
      none_given : {x : InitParams} → ◌≡◌ {A = Option InitParams} none (some x) → ⊥
      none_given e = cc
  initialize_failed d after (some params) e =
      elim (Bool-cases (params.interface_version == api_version)) [
        | inr other ↦ inl (
          (λ r.
              let is =
                ap (λ (q : InitParams). q.interface_version) (given-is params r) ∙ r.version in
              ground (arith, other, is)),
          initialize-same d after (rw other at e),
        )
        | inl same ↦ elim (Option-cases params.client) [
          | inl no_client ↦ inl (
            (λ r.
                let is =
                  sym no_client
                  ∙ ap (λ (q : InitParams). q.client) (given-is params r)
                  ∙ r.is_client in
                absurd (no_some is)),
            initialize-same d after (rw (no_client, initialize) at (rw same at e)),
          )
          | inr (client, is_client) ↦
              let e' = rw (is_client, initialize) at (rw same at e) in
              elim (Bool-cases g.init_check) [
                | inl starts ↦ inr (
                  record {
                    given = params;
                    is_given = refl;
                    version = ground (arith, same);
                    client = client;
                    is_client = is_client;
                    starts = starts;
                  },
                  start-NotBuilt d after client params.out_of_band_picture_parameters
                      (rw starts at e'),
                )
                | inr stopped ↦ inl (
                  (λ r. absurd (false_true (sym stopped ∙ r.starts))),
                  initialize-same d after (rw stopped at e'),
                )
              ]
        ]
      ]
    where
      no_some : {c : ℕ} → ◌≡◌ {A = Option ℕ} none (some c) → ⊥
      no_some e = cc

      false_true : false ≡ true → ⊥
      false_true e = ground (arith, e)

  release-crash :
      (d : DecoderParser g) → d.ref_count ≡ 1 → deinitialize g d ≡ none → release g d ≡ none
  unfolding release
  release-crash d last crash =
      let zero_left : (d.ref_count - 1 == 0) ≡ true = ground (arith, last) in
      rw zero_left (rw crash)

  -- For a codec other than H.264 and H.265 a request fails, and the last Release of the object crashes.
  pub initialize_unsupported :
      (d : DecoderParser g) (params : Option InitParams)
      → IsRequest params
      → d.codec ≡ other_codec
      → d.ref_count ≡ 1
      → (after : DecoderParser g) × (initialize g d params ≡ some (initialization_failed, after))
        × (release g after ≡ none)
  unfolding start build new_parser with_pipeline
  initialize_unsupported d params r other last =
      let p = new_parser g r.client d.codec r.given.out_of_band_picture_parameters in
      let after : DecoderParser g = record d { parser = some p } in
      let failed = build_codec-other d.codec p other in
      (
        after,
        initialize-start d params r ∙ ap (with_pipeline g d) failed,
        release-crash after last (deinitialize-crash after p refl refl),
      )
