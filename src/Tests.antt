-- ===== src/Tests.antt =====
-- Requests, handlers and routers on which the examples run, and the examples of each part.
pub mod Routing
pub mod Caching
pub mod Serving
pub mod Sessions
pub mod Repeats
pub mod Pages
pub mod Styles
pub mod Documents
use goserver.Common.{arith, [], none, set, some, true, ◌++◌}
use goserver.Text.{
  Str, codes, contains, cut_prefix, has_prefix, has_suffix, itoa, itoa_from, join, member, split,
  split_from, str_eq, to_lower, to_upper, trim, trim_left, trim_prefix, trim_right, trim_space,
  trim_suffix, without,
}
use goserver.Http.{
  Context, Handler, Renderer, Request, error_data, get, get_request_id, http_error, http_redirect,
  notify, render_error, render_error_json, set_header, write, write_header,
}

abbrev pub no_context : Context
no_context = record {
  params = none;
  request_id = none;
  lang = none;
  is_bot = none;
  is_ai = none;
  tenant = none;
  scope = none;
}

-- A request without headers, query and body.
abbrev pub request : Str → Str → Request
request method path = record {
  method = method;
  path = path;
  raw_path = [];
  raw_query = [];
  host = codes "example.com";
  tls = true;
  headers = [];
  query = [];
  content_length = some 0;
  body = [];
  remote_addr = codes "10.0.0.1:4000";
  context = no_context;
}

abbrev pub hello : Handler
hello r w = write (codes "hello") w

abbrev pub plain_renderer : Renderer
plain_renderer = record {
  page = λ d. some (codes "<p>" ++ d.message);
  json = λ d. d.message;
  status_text = itoa;
  report = λ d. d.message;
  has_notifier = true;
}

-- Every function of the model computes in the examples.
unfoldable pub program : Unit {0}
unfolding goserver.Cache.save goserver.Cache.trigger_revalidate goserver.Cache.finish_revalidate
    goserver.Cache.store_result goserver.Cache.flight goserver.Cache.swr_flight
    goserver.Cache.fresh_file goserver.Cache.share goserver.Server.is_over
    goserver.Server.is_positive goserver.Timeout.unwrap goserver.Router.step_up
    goserver.Cache.get_or_set_disk goserver.Cache.get_or_set goserver.Cache.get_or_set_swr
    goserver.Cache.fetch goserver.Cache.set goserver.Cache.get goserver.Cache.sweep
    goserver.Cache.cleanup_round goserver.Cache.clean_files goserver.Cron.new_cron_manager
    goserver.Cron.add_job goserver.Cron.add_interval_job goserver.Cron.add_daily_job
    goserver.Cron.start goserver.Cron.cancel goserver.Cron.finish_one goserver.Cron.next_run
    goserver.Csrf.match_origin goserver.Csrf.normalize_wildcard_origin goserver.Csrf.add_origins
    goserver.Csrf.trusted_origins goserver.Csrf.is_trusted goserver.Csrf.csrf_middleware
    goserver.Http.get goserver.Http.set_header goserver.Http.write_header goserver.Http.write
    goserver.Http.http_error goserver.Http.http_redirect goserver.Http.get_request_id
    goserver.Http.error_data goserver.Http.notify goserver.Http.render_error_json
    goserver.Http.render_error goserver.Idempotency.intercept_header
    goserver.Idempotency.intercept_write goserver.Idempotency.edit_unsent goserver.Idempotency.play
    goserver.Idempotency.intercept goserver.Idempotency.recorded goserver.Idempotency.response_of
    goserver.Idempotency.persist goserver.Idempotency.flight goserver.Idempotency.cache_key
    goserver.Idempotency.fingerprint_of goserver.Idempotency.copy_headers
    goserver.Idempotency.mark_repeated goserver.Idempotency.respond
    goserver.Idempotency.is_safe_method goserver.Idempotency.idempotency_middleware
    goserver.LoadShedding.new_shedder goserver.LoadShedding.acquire goserver.LoadShedding.retain
    goserver.LoadShedding.done goserver.LoadShedding.load_shedding_middleware
    goserver.Lru.Unbounded.entry_keys goserver.Maps.lookup goserver.Maps.insert goserver.Maps.delete
    goserver.Maps.lookup_or goserver.Protect.glob_prefix goserver.Protect.glob_found
    goserver.Protect.outdated_browser_middleware goserver.Protect.malicious_request_middleware
    goserver.Protect.block_malicious_paths_middleware goserver.Protect.hsts_value
    goserver.Protect.security_middleware goserver.Protect.set_headers goserver.Protect.merge_headers
    goserver.Protect.bot_and_ai_detection_middleware goserver.Protect.get_client_type
    goserver.Proxies.new_proxy_manager goserver.Proxies.forget_old goserver.Proxies.collect
    goserver.Proxies.update_synchronously goserver.Proxies.mark_bad goserver.Proxies.is_usable
    goserver.Proxies.pick goserver.Proxies.get_random_proxy goserver.RateLimit.current_window
    goserver.RateLimit.count_request goserver.RateLimit.over_limit goserver.RateLimit.wait_seconds
    goserver.RateLimit.answer goserver.RateLimit.find_client goserver.RateLimit.with_rate_limiter
    goserver.RateLimit.Windows.run goserver.RateLimit.Windows.passed
    goserver.Requests.normalize_api_prefix goserver.Requests.raw_root goserver.Requests.strip_prefix
    goserver.Requests.api_prefix_middleware goserver.Requests.first_part goserver.Requests.scheme_of
    goserver.Requests.is_local goserver.Requests.has_www goserver.Requests.has_slash
    goserver.Requests.is_insecure goserver.Requests.redirect_url
    goserver.Requests.redirect_middleware goserver.Requests.redirect goserver.Requests.get_params
    goserver.Requests.set_params goserver.Requests.request_id_middleware goserver.Router.resolve
    goserver.Router.resolve_all goserver.Router.path_clean goserver.Router.rooted
    goserver.Router.clean_path goserver.Router.compile_parts goserver.Router.compile_pattern
    goserver.Router.split_path goserver.Router.is_root goserver.Router.match_parts
    goserver.Router.match_segments goserver.Router.fast_parts goserver.Router.fast_match_no_params
    goserver.Router.join_paths goserver.Router.chain goserver.Router.new_router
    goserver.Router.is_plain goserver.Router.add_static goserver.Router.add_dyn
    goserver.Router.handle goserver.Router.handle_fallback goserver.Router.set_not_found_handler
    goserver.Router.find_static goserver.Router.first_match goserver.Router.find_dyn
    goserver.Router.with_params goserver.Router.allowed_static goserver.Router.allowed_dyn
    goserver.Router.serve_options_if_known goserver.Router.serve_unrouted
    goserver.Router.serve_table goserver.Router.serve_http goserver.Router.route_params
    goserver.Router.Groups.add_route goserver.Router.Groups.add_routes
    goserver.Router.Groups.add_any goserver.Router.Groups.group
    goserver.Router.Groups.use_middleware goserver.Router.Groups.group_add_route
    goserver.Router.Groups.group_add_routes goserver.Router.Groups.reject_request
    goserver.Router.Paths.path_of goserver.Server.new_maintenance_mode_at goserver.Server.enabled
    goserver.Server.allows goserver.Server.serve_maintenance goserver.Server.begin_work
    goserver.Server.begin_shutdown goserver.Server.is_request_method goserver.Server.refusal
    goserver.Server.count_status goserver.Server.apply_hooks goserver.Server.admit
    goserver.Server.build_handler goserver.Server.compile_middleware_chain
    goserver.Server.normalize_server_addr goserver.Server.Connections.increment
    goserver.Server.Connections.decrement goserver.Server.Connections.exceeds
    goserver.Server.Connections.conn_state_callback goserver.Server.Connections.run_states
    goserver.Session.put_new goserver.Session.get goserver.Session.set goserver.Session.delete
    goserver.Session.get_or_set_session goserver.Session.store_value goserver.Session.flight_session
    goserver.Session.value_flight goserver.Session.get_or_set goserver.Session.set_session_value
    goserver.Session.get_session_value goserver.Tenants.add_tenant goserver.Tenants.remove_tenant
    goserver.Tenants.get_tenant goserver.Tenants.match_parts_from_end
    goserver.Tenants.match_wildcard_extended goserver.Tenants.hostname_of
    goserver.Tenants.find_by_domain goserver.Tenants.tenant_id goserver.Tenants.tenant_middleware
    goserver.Tenants.request_tenant goserver.Text.str_eq goserver.Text.cut_prefix
    goserver.Text.has_prefix goserver.Text.trim_prefix goserver.Text.has_suffix
    goserver.Text.trim_suffix goserver.Text.contains goserver.Text.trim_left
    goserver.Text.trim_right goserver.Text.trim goserver.Text.trim_space goserver.Text.split_from
    goserver.Text.split goserver.Text.join goserver.Text.to_upper goserver.Text.to_lower
    goserver.Text.member goserver.Text.without goserver.Text.itoa_from goserver.Text.itoa
    goserver.Tokens.generate_token goserver.Tokens.validate_parts goserver.Tokens.validate_token
    goserver.Web.Pages.ext_from goserver.Web.Pages.file_ext goserver.Web.Pages.drop_index
    goserver.Web.Pages.page_segment goserver.Web.Pages.page_segments goserver.Web.Pages.route_part
    goserver.Web.Pages.segment_score goserver.Web.Pages.score_of goserver.Web.Pages.route_of
    goserver.Web.Pages.page_route goserver.Web.Pages.str_lt goserver.Web.Pages.page_less
    goserver.Web.Pages.insert_page goserver.Web.Pages.sort_pages goserver.Web.Pages.last_part
    goserver.Web.Pages.base_name goserver.Web.Pages.load_page goserver.Web.Pages.walk_pages
    goserver.Web.Pages.load_pages goserver.Web.Pages.split_url_path goserver.Web.Pages.match_route
    goserver.Web.Pages.match_items goserver.Web.Pages.match_pages goserver.Web.Pages.match_static
    goserver.Web.Pages.public_route_params goserver.Web.Pages.locale_of
    goserver.Web.Pages.with_locale goserver.Web.Pages.select_matched
    goserver.Web.Pages.select_page_from goserver.Web.States.new_runtime_state_store
    goserver.Web.States.discard_from goserver.Web.States.discard_oldest
    goserver.Web.States.prune_from goserver.Web.States.prune_expired
    goserver.Web.States.is_prune_due goserver.Web.States.make_room goserver.Web.States.put
    goserver.Web.States.get goserver.Web.Renders.new_render_cache goserver.Web.Renders.weight
    goserver.Web.Renders.weight_at goserver.Web.Renders.drop_document
    goserver.Web.Renders.free_documents goserver.Web.Renders.set_document
    goserver.Web.Renders.oldest_from goserver.Web.Renders.evict_oldest goserver.Web.Renders.untag
    goserver.Web.Renders.add_tags goserver.Web.Renders.plain_tags
    goserver.Web.Renders.set_with_tag_versions goserver.Web.Renders.set
    goserver.Web.Renders.drop_keys goserver.Web.Renders.invalidate_tags goserver.Web.Renders.get
    goserver.Web.Renders.begin_revalidate goserver.Web.Renders.end_revalidate
    goserver.Web.Css.css_step goserver.Web.Css.add_unit goserver.Web.Css.units_from
    goserver.Web.Css.split_css_units goserver.Web.Css.all_css goserver.Web.Css.all_units
    goserver.Web.Css.chunk_size goserver.Web.Css.flush goserver.Web.Css.fill_chunks
    goserver.Web.Css.borrow goserver.Web.Css.balance goserver.Web.Css.min_chunk
    goserver.Web.Css.max_chunk goserver.Web.Css.pack_units goserver.Web.Css.build_css_chunks
    goserver.Web.Rules.segments_agree goserver.Web.Rules.route_pattern_match
    goserver.Web.Rules.excluded_by goserver.Web.Rules.route_rule_excluded
    goserver.Web.Rules.best_rule goserver.Web.Rules.route_rule goserver.Web.Rules.ssr_stream_enabled
    goserver.Web.Rules.route_ttl goserver.Web.Rules.only_runtime_state
    goserver.Web.Rules.cacheable_request goserver.Web.Rules.cacheable_page_request
    goserver.Web.Rules.public_cache_control goserver.Web.Rules.first_value
    goserver.Web.Rules.response_cacheable goserver.Web.Api.new_response_cache goserver.Web.Api.find
    goserver.Web.Api.drop_one goserver.Web.Api.store goserver.Web.Api.begin goserver.Web.Api.finish
    goserver.Web.Api.capture_status goserver.Web.Api.capture_write
    goserver.Web.Api.execute_cached_route goserver.Web.Api.serve_server_route
    goserver.Web.Api.keep_cacheable goserver.Web.Api.renew goserver.Web.Api.fetch
    goserver.Web.Api.copy_headers goserver.Web.Api.write_cached goserver.Web.Html.is_html_name_char
    goserver.Web.Html.tag_end goserver.Web.Html.tag_word goserver.Web.Html.starts_with
    goserver.Web.Html.html_tag_name goserver.Web.Html.next_raw goserver.Web.Html.drop_spaces
    goserver.Web.Html.between_tags goserver.Web.Html.ends_with_space goserver.Web.Html.compact_step
    goserver.Web.Html.compact_from goserver.Web.Html.compact_html goserver.Web.Html.is_plain_name
    goserver.Web.Html.is_declaration_name goserver.Web.Html.cut goserver.Web.Html.is_unsafe_value
    goserver.Web.Html.declarations_from goserver.Web.Html.safe_style_declarations
    goserver.Timeout.new_timeout_writer goserver.Timeout.edit_header goserver.Timeout.sync_header
    goserver.Timeout.call goserver.Timeout.write goserver.Timeout.write_header
    goserver.Timeout.flush goserver.Timeout.timeout_code goserver.Timeout.expire
    goserver.Timeout.select goserver.Timeout.enter goserver.Text.Ink.ink
    goserver.Web.Renders.Bytes.total goserver.Numbers.digits_from goserver.Numbers.parse_digits
    goserver.Numbers.within goserver.Numbers.parse_int goserver.Numbers.parse_uint
    goserver.Utils.get_env goserver.Utils.parse_bool goserver.Utils.get_env_bool
    goserver.Utils.get_env_int goserver.Utils.to_word goserver.Utils.shifted
    goserver.Utils.split_shift goserver.Utils.unit_of goserver.Utils.get_env_bytes
    goserver.Utils.get_response_mode goserver.Utils.first_three goserver.Utils.mask_partially
    goserver.Utils.trimmed goserver.Utils.split_and_trim goserver.Utils.forwarded_for
    goserver.Utils.ip_of_forwarded_for goserver.Utils.ip_of_real_ip goserver.Utils.get_real_ip
    goserver.Utils.is_valid_origin goserver.Utils.hex4 goserver.Utils.to_ascii
    goserver.Utils.get_first goserver.Utils.get_query_param goserver.Utils.plain_values
    goserver.Utils.allowed_values goserver.Utils.get_query_array goserver.WsToken.generate_ws_token
    goserver.WsToken.validate_ws_parts goserver.WsToken.validate_ws_token
    goserver.WsToken.authenticate_ws_request goserver.Web.Scopes.new_scope goserver.Web.Scopes.set
    goserver.Web.Scopes.get goserver.Web.Scopes.copy_values goserver.Web.Scopes.snapshot
    goserver.Web.Scopes.find goserver.Web.Scopes.cut_quote goserver.Web.Scopes.drop_bytes
    goserver.Web.Scopes.first_attribute goserver.Web.Scopes.replace_from
    goserver.Web.Scopes.replace_runtime_state_tokens goserver.Web.Scopes.remove_from
    goserver.Web.Scopes.remove_runtime_state_attributes goserver.Web.Chains.holds
    goserver.Web.Chains.chain_step goserver.Web.Chains.rendered_from
    goserver.Web.Chains.rendered_nodes goserver.Web.Chains.Branches.first_branch
    goserver.Json.path_segment goserver.Json.path_segments goserver.Json.compile_path
    goserver.Json.get_field goserver.Json.get_item goserver.Json.item_at goserver.Json.follow
    goserver.Json.get_dot_path
program = tt
