-- ===== src/Lib.antt =====
-- trequests is a Tcl extension, in C over libcurl, that sends HTTP requests. A command makes a
-- request from its options and from the defaults of a session, if it belongs to one. A request is
-- sent at once, or is given to the pool of its thread, which runs all asynchronous requests by one
-- event source of Tcl's event loop. When a transfer ends, the pool takes the request out and
-- queues an event that runs its callback. Requests and sessions are commands of Tcl, and are freed
-- when their commands are deleted.
--
-- The modules, and the code that each is about:
--   Base: what the modules share: native numbers, byte strings, and a C int as an integer.
--   Text: src/common.c. Text.Charset is treq_ConvertCharsetToEncoding, Text.ContentType is
--     treq_ParseContentType, and Text.Urlencode is treq_UrlencodeTclObject and
--     treq_UrldecodeString.
--   Auth: src/treqRequestAuth.c, treq_RequestAuthParseOption and treq_RequestAuthInit.
--   Request: src/treqRequest.c and src/treqRequest.h. Request.Settings has the input parameters,
--     Request.Memory the memory of one thread, Request.Callback the events of callbacks, the
--     errors and the state, Request.Content the buffer of treq_write_callback with a Tcl_Size of
--     either width, Request.Execute the run of a callback, treq_ExecuteTclCallback of
--     src/common.c.
--   Pool: src/treqPool.c, each handler of the event source and the operations on requests.
--   Session: src/treqSession.c, and treq_RequestInit.
--   Destroy: treq_RequestFree, treq_RequestHandleDelete, treq_SessionFree and treq_PoolFree.
--   Options: src/library.c, from the arguments of an option to treq_ValidateOptions.
--     Options.Dicts has treq_OptionListMergeDicts and treq_MergeDicts, Options.Data has
--     treq_ValidateOptionData, Options.Compatible the checks of options that go together.
--   Create: src/library.c, the settings that treq_CreateNewRequest stores in a request and
--     treq_SessionCmd in a session, and in Create.Commands the dispatch of treq_RequestCmd and
--     treq_SessionHandleCmd.
--   Run: src/treqRequest.c, treq_RequestRun. Run.Setup and Run.Body have the calls of
--     curl_easy_setopt and curl_url_set, Run.Start the transfer and what follows an error.
--   Response: src/treqRequest.c, the encoding, the text and the headers of a response, and in
--     Response.Headers the dispatch of treq_RequestHandleCmd of src/library.c.
--   Debug: src/treqRequest.c, treq_debug_callback and treq_debug_dump.
--   Version: src/library.c, treq_CurlVersionCmd.
--   Launch: src/library.c, treq_CreateNewRequest as a whole, which joins Options, Create, Session,
--     Run, Response and Destroy; Launch.Sessions is treq_SessionCmd as a whole.
--   Thread: what holds of the memory of a thread between two events (ThreadInv), and that the
--     functions of Pool, Request, Run and Destroy keep it; Thread.Sessions is on treq_SessionFree,
--     Thread.Exit on treq_PoolThreadExitProc.
--   History: sequences of commands, events and answers of libcurl, from a thread in which nothing
--     has happened.
--   Package: src/library.c and src/library.h, Trequests_Init and the exit handlers, with what an
--     interpreter gets that loads the package, and the process that libcurl is initialised in.
--   Script: src/library.c, what a script evaluates: from the words of a command, by Create.Commands
--     and Response.Headers, to Launch, Destroy and the getters of Response. The fields of the
--     requests for their responses stand beside the memory (Shown); what libcurl has of a response
--     is a part of Script.Front.
--   Testing: src/testing.c, the registration of settings in the testing mode.
--   Tests: concrete inputs for the theorems.
--
-- How state is modelled. The memory of a thread is a record: the live requests and sessions by
-- address, the pool, and Tcl's queue of events. A function that changes it takes it and returns
-- it; a read or a write through a pointer to what is not live is the fault `none`. Allocation
-- gives a new address each time. An int is an integer, and the number of running requests is taken
-- not to reach the bound of an int. A C string is the list of its bytes before the NUL, and a Tcl
-- object is its string representation; reference counts are not modelled. A Tcl_Size wraps around
-- at its width, which is that of Tcl 9 in Run.Start. The requests of a thread are of one interpreter,
-- so one flag says that it is deleted.
--
-- What libcurl and Tcl do is an argument. Answers of curl_multi_perform, curl_multi_wait,
-- curl_multi_timeout and curl_multi_info_read are arguments of the handlers. Functions of Tcl on
-- lists and dictionaries, curl_strequal, curl_easy_escape and the flags of curl.h are fields of
-- Options.Platform; a look-up by Tcl_GetIndexFromObjStruct is a parameter of Create, Response.Headers
-- and Testing, and Script.Front has those of a script with Tcl_ParseArgsObjv. Run.Curl says which
-- settings libcurl refuses, Run.Start.World what a transfer gives,
-- Response.Encodings has the encodings of Tcl, Debug.Formats the formats of fprintf, and Launch.Site
-- joins what the creation of a request meets. What the theorems use of them stands in
-- Options.Dicts.Headers (Documented), in Text.Urlencode.Chunks (EscapesEach), in Debug.Rows
-- (ThreeCells) and in Script.Words (FindsListed) as what their documentation says.
--
-- A script that runs as a callback is the caller's. What it does with requests and sessions are
-- further steps of a history, and the event is dropped before them. The debug callback has no step.
--
-- The loop of treq_UrlencodeTclObject runs on fuel, one more than the length of the data: each
-- round takes at least one byte. The loop of treq_debug_dump runs on the length of the data. All
-- other loops run along a list.
--
-- Not modelled: Tcl_ParseArgsObjv, which fills the options from the words of a command, the
-- names that Tcl gives to handles, and reference counts. They are calls of
-- libcurl and of Tcl. Ns_ModuleInit only hands Trequests_Init to NaviServer.
pub mod Base
pub mod Text
pub mod Auth
pub mod Request
pub mod Pool
pub mod Session
pub mod Destroy
pub mod Options
pub mod Create
pub mod Run
pub mod Response
pub mod Debug
pub mod Version
pub mod Thread
pub mod Launch
pub mod History
pub mod Package
pub mod Script
pub mod Testing
pub mod Tests
